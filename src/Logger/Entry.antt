-- ===== src/Logger/Entry.antt =====
-- The record of internal/logentry/entry.go. json.Marshal, SHA-256, the signer and ed25519.Verify are
-- parameters, and so is the type of the attributes. `reread` is what an attribute map is after a trip
-- through the JSON of a line.
use agent_ssh.Base.{ℕ, Bool, Option, none, some, [], ◌++◌}
use agent_ssh.Base.Hex
use agent_ssh.Base.Text.{Text}

pub record Body (Attrs : Type 0) : Type 0 where
  pub seq : ℕ
  pub timestamp : ℕ
  pub level : Text
  pub message : Text
  pub attrs : Attrs
  pub prev_hash : Text
  pub algo : Text

pub record Entry (Attrs : Type 0) : Type 0 where
  pub body : Body Attrs
  pub open body use *
  pub signature : Text

-- `marshal` is json.Marshal of the fields but the signature, which fails on attributes that have no
-- JSON; `sign` is Signer.Sign; `verify` is ed25519.Verify with the verifier's key.
pub record Crypto : Type 1 where
  pub Attrs : Type 0
  pub marshal : Body Attrs → Option Text
  pub reread : Attrs → Attrs
  pub sha256 : Text → Text
  pub sign : Text → Option Text
  pub verify : Text → Text → Bool
  pub algorithm : Text

or_empty : Option Text → Text
or_empty none = []
or_empty (some t) = t

module _ (c : Crypto) where
  open c use {Attrs, marshal, sha256}

  unfoldable pub canonical_bytes : Entry Attrs → Option Text
  canonical_bytes e = marshal e.body

  -- Hash drops the error of CanonicalBytes.
  unfoldable pub hash : Entry Attrs → Text
  unfolding or_empty canonical_bytes
  hash e = sha256 (or_empty (canonical_bytes e) ++ e.signature)

  unfoldable pub hash_string : Entry Attrs → Text
  unfolding hash
  hash_string e = Hex.encode (hash e)

  -- The entry that a reader of its line decodes.
  unfoldable pub decoded : Entry Attrs → Entry Attrs
  decoded e = record {
    body = record {
      seq = e.seq;
      timestamp = e.timestamp;
      level = e.level;
      message = e.message;
      attrs = c.reread e.attrs;
      prev_hash = e.prev_hash;
      algo = e.algo;
    };
    signature = e.signature;
  }
