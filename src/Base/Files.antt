-- ===== src/Base/Files.antt =====
-- A file system as a map from paths to contents: what os.WriteFile, os.Rename and os.Remove do to it
-- when they succeed.
use agent_ssh.Base.Tests.{if◌then◌else◌, Bool-cases}
use agent_ssh.Base.Text.{Text, text_eq, text_eq_iff, text_eq_refl}
use agent_ssh.Base.Result.{Result, ok, err}
use mathlib.Core.Path.{◌≡◌, refl}
use mathlib.Core.Logic.{◌≢◌, inl, inr}
use mathlib.Core.Bool.{Bool, true, false}
use mathlib.Core.Option.{Option, none, some}

abbrev pub Files : Type 0
Files = Text → Option Text

unfoldable pub put : Text → Option Text → Files → Files
put path content files p = if text_eq p path then content else files p

unfoldable pub is_file : Option Text → Bool
is_file none = false
is_file (some _) = true

pub put_same : (path : Text) (o : Option Text) (files : Files) → put path o files path ≡ o
unfolding put
put_same path o files = rw (text_eq_refl path) refl

pub put_other :
    (path p : Text) (o : Option Text) (files : Files) → p ≢ path → put path o files p ≡ files p
unfolding put
put_other path p o files h = elim (Bool-cases (text_eq p path)) [
  | inl e ↦ elim (h ((text_eq_iff p path).0 e)) [ ]
  | inr e ↦ rw e refl
]

-- What os.WriteFile does: all of it, nothing, or an error after a part.
pub data Write : Type 0 where
  complete refused : Write
  cut : Text → Write

unfoldable pub write_file :
    {E : Type 0} → Write → E → Text → Text → Files → Files × Result E (Unit {0})
write_file complete x path content files = (put path (some content) files, ok tt)
write_file refused x path content files = (files, err x)
write_file (cut part) x path content files = (put path (some part) files, err x)

pub write_file_ok :
    {E : Type 0} (w : Write) (x : E) (path t : Text) (files : Files)
    → (write_file w x path t files).1 ≡ ok tt
    → (write_file w x path t files).0 ≡ put path (some t) files
unfolding write_file
write_file_ok complete x path t files h = refl
write_file_ok refused x path t files h = cc
write_file_ok (cut part) x path t files h = cc

pub write_file_other :
    {E : Type 0} (w : Write) (x : E) (path t : Text) (files : Files) (q : Text)
    → q ≢ path
    → (write_file w x path t files).0 q ≡ files q
unfolding write_file
write_file_other complete x path t files q h = put_other path q (some t) files h
write_file_other refused x path t files q h = refl
write_file_other (cut part) x path t files q h = put_other path q (some part) files h

pub write_file_error :
    {E : Type 0} (w : Write) (x y : E) (path t : Text) (files : Files)
    → (write_file w x path t files).1 ≡ err y
    → x ≡ y
unfolding write_file
write_file_error complete x y path t files h = cc
write_file_error refused x y path t files h = cc
write_file_error (cut part) x y path t files h = cc
