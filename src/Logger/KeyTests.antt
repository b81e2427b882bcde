-- ===== src/Logger/KeyTests.antt =====
-- Runs of the models of internal/logger/signer.go and of New of internal/logger/logger.go with toy
-- keys: a key is a text, its bytes are the text, and a signature is the length of what is signed.
use agent_ssh.Base.{
  ℕ, ◌%◌, ◌≡◌, ◌≢◌, refl, ap, subst, true, false, Option, none, some, [], ◌∷◌, ◌++◌, arith, All,
  length, take, drop,
}
use agent_ssh.Base.Hex.{IsByte}
use agent_ssh.Base.Files.{Files, complete, refused, write_file, is_file}
use agent_ssh.Base.Normal.{text_ne}
use agent_ssh.Base.Path.{dir, clean}
use agent_ssh.Base.Result.{ok, err}
use agent_ssh.Base.Text.{Text, codes, text_eq, text_eq_refl}
use agent_ssh.Config.Types.{LogConfig, default_config}
use agent_ssh.Logger.Entry.{Entry, Crypto, decoded}
use agent_ssh.Logger.Handler.{recover}
use agent_ssh.Logger.Verifier.{verify_log_file}
use agent_ssh.Logger.Chain.{Sound, Verified}
use agent_ssh.Logger.Keys.{
  Block, Parsed, ed25519_key, KeyOps, ed25519, algorithm_of, read_failed, write_public_failed,
  read_file, public_path, Signer, ed25519_signer, private_key, decode_private, load_ed25519_signer,
  load_signer, load_public_key, write_private_key, write_public_key, KeyIo, write_pair,
  generate_pair, dir_fails, created, make_key, ensure_key_pair, private_kind,
}
use agent_ssh.Logger.Pair.{KeyLaws}
use agent_ssh.Logger.Signing.{crypto_with, ensure_key_pair-Sound}
use agent_ssh.Logger.Sparing.{ensure_key_pair-spares}
use agent_ssh.Logger.Lost.{ensure_key_pair-loses}
use agent_ssh.Logger.Replica.{Replicates}
use agent_ssh.Logger.Lifecycle.{OpenIo, Running, start, open_log, new}
use agent_ssh.Logger.Opening.{Opens, new-Opens}
use agent_ssh.Mq.Sender
use agent_ssh.Mq.Sender.{noop, NewIo}
use agent_ssh.Mq.Topics.{HasTarget}

abbrev digest : Text → Text
digest t = length t % 256 ∷ []

abbrev first_block : Text → Option Block
first_block [] = none
first_block (n ∷ t) = some (record { kind = take n t; bytes = drop n t })

abbrev pub texts : KeyOps
texts = record {
  PrivateKey = Text;
  PublicKey = Text;
  public_of = λ k. k;
  marshal_private = λ k. some k;
  marshal_public = λ k. some k;
  parse_private = λ t. ed25519_key t;
  parse_public = λ t. ed25519_key t;
  pem_encode = λ b. length b.kind ∷ b.kind ++ b.bytes;
  pem_decode = first_block;
  sign_ed25519 = λ k d. some (digest d);
  verify_ed25519 = λ k d s. text_eq (digest d) s;
  hmac_sha256 = λ k d. digest d;
}

taken : (s t : Text) → take (length s) (s ++ t) ≡ s
taken [] t = refl
taken (c ∷ s) t = ap (λ l. c ∷ l) (taken s t)

dropped : (s t : Text) → drop (length s) (s ++ t) ≡ t
dropped [] t = refl
dropped (c ∷ s) t = dropped s t

same : (d s : Text) → some (digest d) ≡ some s → digest d ≡ s
same d s h = cc

named : (k t : Text) → some k ≡ some t → ◌≡◌ {A = Parsed Text} (ed25519_key t) (ed25519_key k)
named k t h = cc

texts-KeyLaws : KeyLaws texts
texts-KeyLaws = record {
  decode_encode =
      λ b i. some (record { kind = taken b.kind b.bytes i; bytes = dropped b.kind b.bytes i });
  parse_private = named;
  parse_public = named;
  sign_verify =
      λ k d s h. subst (λ x. text_eq (digest d) x ≡ true) (same d s h) (text_eq_refl (digest d));
  sign_bytes = λ k d s h. subst (λ x. All IsByte x) (same d s h) (omega arith, tt);
}

abbrev pub calls : KeyIo texts
calls = record {
  unknown = false;
  mkdir_all = λ _. true;
  generated = some (codes "k");
  secret = none;
  private_write = complete;
  public_write = complete;
}

abbrev half : KeyIo texts
half = record calls { public_write = refused }

abbrev pub nothing_there : Files
nothing_there p = none

apart : codes "a" ≢ public_path (codes "a") (codes "b")
unfolding public_path text_eq
apart = text_ne {s = codes "a"} {t = codes "b"} refl

ensure_key_pair-spares_example :
    (is_file (nothing_there (codes "a")) ≡ true
      → (ensure_key_pair texts calls [] (codes "a") (codes "b") nothing_there).0 ≡ nothing_there)
    × ((r : Text)
        → r ≢ codes "a"
        → r ≢ public_path (codes "a") (codes "b")
        → (ensure_key_pair texts calls [] (codes "a") (codes "b") nothing_there).0 r
          ≡ nothing_there r)
ensure_key_pair-spares_example =
    ensure_key_pair-spares texts calls [] (codes "a") (codes "b") nothing_there

is_ed25519 : algorithm_of [] ≡ some ed25519
unfolding algorithm_of text_eq
is_ed25519 = refl

makes : (ensure_key_pair texts calls [] (codes "a") (codes "b") nothing_there).1 ≡ ok true
unfolding ensure_key_pair is_file dir_fails make_key generate_pair write_pair write_private_key
    write_public_key write_file created dir clean text_eq algorithm_of
makes = refl

half_made :
    (ensure_key_pair texts half [] (codes "a") (codes "b") nothing_there).1
    ≡ err write_public_failed
unfolding ensure_key_pair is_file dir_fails make_key generate_pair write_pair write_private_key
    write_public_key write_file created dir clean text_eq algorithm_of
half_made = refl

abbrev pub plain : Crypto
plain = record {
  Attrs = Unit {0};
  marshal = λ b. some (b.message ++ b.prev_hash);
  reread = λ a. a;
  sha256 = digest;
  sign = λ d. none;
  verify = λ d s. false;
  algorithm = [];
}

keeps : (e : Entry (Unit {0})) → plain.marshal (decoded plain e).body ≡ plain.marshal e.body
unfolding decoded
keeps e = refl

ensure_key_pair-Sound_example :
    let after = (ensure_key_pair texts calls [] (codes "a") (codes "b") nothing_there).0 in
    (s : Signer texts) × (k : Text) × (load_signer texts true [] (codes "a") after ≡ ok s)
    × (load_public_key texts true (public_path (codes "a") (codes "b")) after ≡ ok k)
    × Sound (crypto_with texts plain s k)
ensure_key_pair-Sound_example =
    ensure_key_pair-Sound texts texts-KeyLaws calls [] (codes "a") (codes "b") nothing_there plain
      keeps is_ed25519 apart makes

ensure_key_pair-loses_example :
    let after = (ensure_key_pair texts half [] (codes "a") (codes "b") nothing_there).0 in
    (ensure_key_pair texts calls [] (codes "a") (codes "b") after ≡ (after, ok false))
    × (load_public_key texts true (public_path (codes "a") (codes "b")) after ≡ err read_failed)
ensure_key_pair-loses_example =
    ensure_key_pair-loses texts half calls [] (codes "a") (codes "b") nothing_there true apart refl
      refl half_made refl

abbrev pub with_key : Files
with_key p = some (texts.pem_encode (record { kind = private_kind; bytes = codes "k" }))

abbrev quiet : LogConfig
quiet = record default_config.log {
  sign_key_file = codes "a";
  mq = record default_config.log.mq { kind = codes "noop" };
}

abbrev pub answers : OpenIo texts plain (codes "k")
answers = record {
  readable = true;
  mq = record { mkdir_all = λ _. true; ping = λ _. true };
  mkdir_all = λ _. true;
  opens = true;
  reads = true;
  lines = [];
}

abbrev opened : Running texts plain (codes "k")
opened = record {
  signer = ed25519_signer (codes "k");
  sender = noop;
  logger = record { seq = 0; last_hash = []; file = []; queue = []; sent = [] };
}

opens : new texts plain (codes "k") answers quiet with_key ≡ ok (some opened)
unfolding new open_log start recover load_signer load_ed25519_signer decode_private private_key
    read_file algorithm_of text_eq Sender.new Sender.is_noop
opens = refl

new-Opens_example :
    Opens texts plain (codes "k") answers quiet with_key opened
    × HasTarget opened.sender
    × Replicates (crypto_with texts plain opened.signer (codes "k")) opened.logger
    × ((q : ℕ × Text)
        → verify_log_file (crypto_with texts plain opened.signer (codes "k")) answers.lines ≡ ok q
        → (opened.logger.file ≡ answers.lines)
          × Verified (crypto_with texts plain opened.signer (codes "k")) opened.logger)
new-Opens_example = new-Opens texts plain (codes "k") answers quiet with_key opened opens
