-- ===== src/Mq/Spool.antt =====
-- Send of internal/mq/file.go. The layout of time.Format and json.Marshal of an entry are parameters;
-- the spool directory is a map from paths to contents.
use agent_ssh.Base.{ℕ, Bool, Option, none, some, [], ◌∷◌, ◌++◌, if◌then◌else◌}
use agent_ssh.Base.Decimal.{padded}
use agent_ssh.Base.Files.{Files, put, Write, write_file}
use agent_ssh.Base.Path.{join}
use agent_ssh.Base.Result.{Result, ok, err}
use agent_ssh.Base.Text.{Text, codes}
use agent_ssh.Logger.Entry.{Entry}

pub data SendError : Type 0 where
  marshal_failed write_failed rename_failed : SendError

-- What the system calls of one Send answer.
pub record SendIo : Type 0 where
  pub write : Write
  pub rename : Bool
  pub remove : Bool

pub record Encoding : Type 1 where
  pub Attrs : Type 0
  pub stamp : ℕ → Text
  pub marshal : Entry Attrs → Option Text

-- os.Rename of a file that is there, and of one that is not.
unfoldable pub move : Text → Text → Files → Files
unfolding put
move from to files = elim (files from) [
  | none ↦ files
  | some t ↦ put to (some t) (put from none files)
]

module _ (c : Encoding) where
  open c use {Attrs, stamp, marshal}

  -- A number below 2 ^ 64 has at most 20 digits.
  unfoldable pub file_name : Entry Attrs → Text
  file_name e = stamp e.timestamp ++ (b'_' ∷ padded 20 e.seq ++ codes ".json")

  unfoldable pub path_of : Text → Entry Attrs → Text
  unfolding file_name
  path_of dir e = join dir (file_name e)

  unfoldable pub store_at : SendIo → Text → Text → Files → Files × Result SendError (Unit {0})
  unfolding move
  store_at io path content files =
      let tmp = path ++ codes ".tmp" in
      let (files', written) = write_file io.write write_failed tmp (content ++ b'\n' ∷ []) files in
      elim written [
        | err x ↦ (files', err x)
        | ok _ ↦
            if io.rename
            then (move tmp path files', ok tt)
            else (if io.remove then put tmp none files' else files', err rename_failed)
      ]

  unfoldable pub send : SendIo → Text → Entry Attrs → Files → Files × Result SendError (Unit {0})
  unfolding store_at path_of
  send io dir e files = elim (marshal e) [
    | none ↦ (files, err marshal_failed)
    | some content ↦ store_at io (path_of dir e) content files
  ]
