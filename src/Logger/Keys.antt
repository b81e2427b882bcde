-- ===== src/Logger/Keys.antt =====
-- internal/logger/signer.go, and GenerateKeyPair and LoadPublicKey of internal/logger/logger.go. The
-- packages crypto/ed25519, crypto/hmac, crypto/x509 and encoding/pem are parameters.
use agent_ssh.Base.{Bool, true, false, not, ◌&&◌, ◌||◌, Option, none, some, [], ◌++◌, if◌then◌else◌}
use agent_ssh.Base.Files.{Files, is_file, Write, write_file}
use agent_ssh.Base.Path.{dir, dot}
use agent_ssh.Base.Result.{Result, ok, err, ◌>>=◌}
use agent_ssh.Base.Text.{Text, codes, text_eq, trim_suffix}

-- pem.Block, without headers.
pub record Block : Type 0 where
  pub kind : Text
  pub bytes : Text

-- What x509 makes of the bytes of a block: an error, a key of another algorithm, or an Ed25519 key.
pub data Parsed (Key : Type 0) : Type 0 where
  unparsable foreign : Parsed Key
  ed25519_key : Key → Parsed Key

-- The operations of Go's packages. `marshal_private` is x509.MarshalPKCS8PrivateKey,
-- `marshal_public` x509.MarshalPKIXPublicKey, `public_of` PrivateKey.Public, `sign_ed25519`
-- PrivateKey.Sign, `verify_ed25519` ed25519.Verify.
pub record KeyOps : Type 1 where
  pub PrivateKey : Type 0
  pub PublicKey : Type 0
  pub public_of : PrivateKey → PublicKey
  pub marshal_private : PrivateKey → Option Text
  pub marshal_public : PublicKey → Option Text
  pub parse_private : Text → Parsed PrivateKey
  pub parse_public : Text → Parsed PublicKey
  pub pem_encode : Block → Text
  pub pem_decode : Text → Option Block
  pub sign_ed25519 : PrivateKey → Text → Option Text
  pub verify_ed25519 : PublicKey → Text → Text → Bool
  pub hmac_sha256 : Text → Text → Text

pub data Algorithm : Type 0 where
  ed25519 hmac : Algorithm

-- The empty name stands for ed25519.
unfoldable pub algorithm_of : Text → Option Algorithm
algorithm_of algo =
    if text_eq algo (codes "ed25519") || text_eq algo []
    then some ed25519
    else if text_eq algo (codes "hmac-sha256")
    then some hmac
    else none

pub data KeyError : Type 0 where
  unsupported_algorithm stat_failed mkdir_failed generate_failed : KeyError
  marshal_failed write_private_failed write_public_failed write_secret_failed : KeyError
  read_failed not_pem unexpected_type parse_failed wrong_key empty_key : KeyError

-- os.ReadFile: a file that is there may not be readable.
unfoldable pub read_file : Bool → Text → Files → Result KeyError Text
read_file readable path files = elim (files path) [
  | none ↦ err read_failed
  | some t ↦ if readable then ok t else err read_failed
]

-- strings.TrimSuffix and the suffix of a public key, where no path is configured.
unfoldable pub public_path : Text → Text → Text
public_path sign_key_file verify_pub_file =
    if text_eq verify_pub_file []
    then trim_suffix sign_key_file (codes ".key") ++ codes ".pub"
    else verify_pub_file

unfoldable pub key_of : Text → Text
key_of prefix = prefix ++ codes ".key"

unfoldable pub pub_of : Text → Text
pub_of prefix = prefix ++ codes ".pub"

abbrev pub private_kind : Text
private_kind = codes "ED25519 PRIVATE KEY"

abbrev pub public_kind : Text
public_kind = codes "ED25519 PUBLIC KEY"

module _ (o : KeyOps) where
  open o use {
    PrivateKey, PublicKey, public_of, marshal_private, marshal_public, parse_private, parse_public,
    pem_encode, pem_decode, sign_ed25519, hmac_sha256,
  }

  -- ed25519Signer and hmacSigner.
  pub data Signer : Type 0 where
    ed25519_signer : PrivateKey → Signer
    hmac_signer : Text → Signer

  -- Signer.Sign
  unfoldable pub sign_with : Signer → Text → Option Text
  sign_with (ed25519_signer k) d = sign_ed25519 k d
  sign_with (hmac_signer k) d = some (hmac_sha256 k d)

  -- Signer.Algorithm
  unfoldable pub algorithm_name : Signer → Text
  algorithm_name (ed25519_signer k) = codes "ed25519"
  algorithm_name (hmac_signer k) = codes "hmac-sha256"

  unfoldable pub private_key : Parsed PrivateKey → Result KeyError PrivateKey
  private_key unparsable = err parse_failed
  private_key foreign = err wrong_key
  private_key (ed25519_key k) = ok k

  unfoldable pub decode_private : Option Block → Result KeyError PrivateKey
  unfolding private_key
  decode_private none = err not_pem
  decode_private (some b) =
      if text_eq b.kind private_kind
      then private_key (parse_private b.bytes)
      else err unexpected_type

  unfoldable pub load_ed25519_signer : Bool → Text → Files → Result KeyError Signer
  unfolding decode_private
  load_ed25519_signer readable key_file files = do
    content ← read_file readable key_file files
    k ← decode_private (pem_decode content)
    ok (ed25519_signer k)

  unfoldable pub load_hmac_signer : Bool → Text → Files → Result KeyError Signer
  load_hmac_signer readable key_file files = do
    content ← read_file readable key_file files
    if text_eq content [] then err empty_key else ok (hmac_signer content)

  unfoldable pub load_signer : Bool → Text → Text → Files → Result KeyError Signer
  unfolding load_ed25519_signer load_hmac_signer
  load_signer readable algo key_file files = elim (algorithm_of algo) [
    | none ↦ err unsupported_algorithm
    | some ed25519 ↦ load_ed25519_signer readable key_file files
    | some hmac ↦ load_hmac_signer readable key_file files
  ]

  unfoldable pub public_key : Parsed PublicKey → Result KeyError PublicKey
  public_key unparsable = err parse_failed
  public_key foreign = err wrong_key
  public_key (ed25519_key k) = ok k

  -- The type of the block is not looked at.
  unfoldable pub decode_public : Option Block → Result KeyError PublicKey
  unfolding public_key
  decode_public none = err not_pem
  decode_public (some b) = public_key (parse_public b.bytes)

  unfoldable pub load_public_key : Bool → Text → Files → Result KeyError PublicKey
  unfolding decode_public
  load_public_key readable path files = do
    content ← read_file readable path files
    decode_public (pem_decode content)

  unfoldable pub write_private_key :
      Write → Text → PrivateKey → Files → Files × Result KeyError (Unit {0})
  write_private_key w path k files = elim (marshal_private k) [
    | none ↦ (files, err marshal_failed)
    | some b ↦
        write_file w write_private_failed path
          (pem_encode (record { kind = private_kind; bytes = b })) files
  ]

  unfoldable pub write_public_key :
      Write → Text → PublicKey → Files → Files × Result KeyError (Unit {0})
  write_public_key w path k files = elim (marshal_public k) [
    | none ↦ (files, err marshal_failed)
    | some b ↦
        write_file w write_public_failed path
          (pem_encode (record { kind = public_kind; bytes = b })) files
  ]

  -- What the system gives: `unknown` is an error of Stat other than os.ErrNotExist; `generated` is the
  -- key of ed25519.GenerateKey and `secret` the 32 bytes of rand.Read.
  pub record KeyIo : Type 0 where
    pub unknown : Bool
    pub mkdir_all : Text → Bool
    pub generated : Option PrivateKey
    pub secret : Option Text
    pub private_write : Write
    pub public_write : Write

  -- Both files of a pair, the private one first.
  unfoldable pub write_pair :
      KeyIo → Text → Text → PrivateKey → Files → Files × Result KeyError (Unit {0})
  unfolding write_private_key write_public_key
  write_pair io private_file public_file k files =
      let (files', first) = write_private_key io.private_write private_file k files in
      elim first [
        | err x ↦ (files', err x)
        | ok _ ↦ write_public_key io.public_write public_file (public_of k) files'
      ]

  unfoldable pub generate_pair : KeyIo → Text → Text → Files → Files × Result KeyError (Unit {0})
  unfolding write_pair
  generate_pair io private_file public_file files = elim io.generated [
    | none ↦ (files, err generate_failed)
    | some k ↦ write_pair io private_file public_file k files
  ]

  unfoldable pub generate_secret : KeyIo → Text → Files → Files × Result KeyError (Unit {0})
  unfolding write_file
  generate_secret io key_file files = elim io.secret [
    | none ↦ (files, err generate_failed)
    | some t ↦ write_file io.private_write write_secret_failed key_file t files
  ]

  -- The directory of the key file, unless it is the current one.
  unfoldable pub dir_fails : KeyIo → Text → Bool
  dir_fails io path =
      not (text_eq (dir path) dot) && not (text_eq (dir path) []) && not (io.mkdir_all (dir path))

  unfoldable pub created : Files × Result KeyError (Unit {0}) → Files × Result KeyError Bool
  created (files, err x) = (files, err x)
  created (files, ok _) = (files, ok true)

  unfoldable pub make_key : KeyIo → Text → Text → Text → Files → Files × Result KeyError Bool
  unfolding generate_pair generate_secret created
  make_key io algo sign_key_file verify_pub_file files = elim (algorithm_of algo) [
    | none ↦ (files, err unsupported_algorithm)
    | some ed25519 ↦
        created (generate_pair io sign_key_file (public_path sign_key_file verify_pub_file) files)
    | some hmac ↦ created (generate_secret io sign_key_file files)
  ]

  unfoldable pub ensure_key_pair : KeyIo → Text → Text → Text → Files → Files × Result KeyError Bool
  unfolding make_key dir_fails
  ensure_key_pair io algo sign_key_file verify_pub_file files =
      if io.unknown
      then (files, err stat_failed)
      else if is_file (files sign_key_file)
      then (files, ok false)
      else if dir_fails io sign_key_file
      then (files, err mkdir_failed)
      else make_key io algo sign_key_file verify_pub_file files

  -- GenerateKeyPair of the flag -generate-keys: no file is looked at before.
  unfoldable pub generate_key_pair : KeyIo → Text → Files → Files × Result KeyError (Text × Text)
  unfolding generate_pair key_of pub_of
  generate_key_pair io prefix files =
      let (files', made) = generate_pair io (key_of prefix) (pub_of prefix) files in
      elim made [ err x ↦ (files', err x) | ok _ ↦ (files', ok (key_of prefix, pub_of prefix)) ]
