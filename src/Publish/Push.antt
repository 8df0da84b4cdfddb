-- ===== src/Publish/Push.antt =====
-- internal/publish/github.go: Push. git is a function from a command, the files of the working
-- directory by their paths, and what git keeps elsewhere (the remote) to its output and both after
-- it. The paths of .git are among the files.
pub mod Git
pub mod Mirrors
pub mod Tests
use ai_website_builder.Common.{
  String, Bool, true, false, not, ◌&&◌, ◌||◌, ◌==◌, ◌<>◌, List, [], ◌∷◌, any, where_rows,
  if◌then◌else◌,
}
use ai_website_builder.Common.Dict.{Dict, insert}
use ai_website_builder.Common.Strings.{cut_at, contains_text}
use ai_website_builder.Publish.Github.{sanitize}

-- The output of a command, and whether it ended well.
pub data Ran : Type 0 where
  ok bad : String → Ran

abbrev pub output : Ran → String
output (ok out) = out
output (bad out) = out

pub data PushError : Type 0 where
  no_directory unreadable not_removed not_copied no_hash : PushError
  not_cloned not_connected not_added not_committed not_pushed : String → PushError

pub data PushResult : Type 0 where
  done : String → PushResult
  failed : PushError → PushResult

-- Which operations on files fail: making and reading the directory, removing an entry, copying.
pub data FileCall : Type 0 where
  make_dir read_dir copy_site : FileCall
  remove_entry : String → FileCall

-- Whether a path is outside of .git.
abbrev pub is_outside : String → Bool
is_outside path = not ((cut_at "/" path).0 == ".git")

-- The files after the entries of the directory were removed, but for .git.
unfoldable pub clear_files : Dict String → Dict String
unfolding cut_at
clear_files files = where_rows (λ (f : String × String). not (is_outside f.0)) files

unfoldable pub copy_dir : Dict String → Dict String → Dict String
unfolding insert
copy_dir [] files = files
copy_dir ((path, content) ∷ site) files = copy_dir site (insert path content files)

abbrev pub remote_of : String → String
remote_of repo = "https://github.com/" <> repo <> ".git"

abbrev pub Command : Type 0
Command = String × List String

abbrev pub clone_command : String → Command
clone_command repo = ("clone", "--depth" ∷ "1" ∷ remote_of repo ∷ "." ∷ [])

abbrev pub init_command : Command
init_command = ("init", "-b" ∷ "main" ∷ [])

abbrev pub remote_command : String → Command
remote_command repo = ("remote", "add" ∷ "origin" ∷ remote_of repo ∷ [])

abbrev pub add_command : Command
add_command = ("add", "-A" ∷ [])

abbrev pub commit_command : String → Command
commit_command message = ("commit", "-m" ∷ message ∷ [])

abbrev pub push_command : Command
push_command = ("push", "origin" ∷ "HEAD:main" ∷ [])

abbrev pub hash_command : Command
hash_command = ("rev-parse", "HEAD" ∷ [])

-- The clone says that the repository is new.
abbrev pub is_new : String → Bool
is_new out =
    contains_text out "You appear to have cloned an empty repository"
    || contains_text out "warning: remote HEAD refers to nonexistent ref"

abbrev pub nothing_new : String → Bool
nothing_new out = contains_text out "nothing to commit"

-- The directory and what git keeps elsewhere.
abbrev pub Checkout : Type 0 → Type 0
Checkout R = Dict String × R

module _ {R : Type 0} (git : Command → Checkout R → Ran × Checkout R) (fails : FileCall → Bool)
    (repo : String) (site : Dict String) (message : String) where
  abbrev pub Outcome : Type 0
  Outcome = PushResult × Checkout R

  unfoldable pub hashed : Ran × Checkout R → Outcome
  hashed (ok hash, w) = (done hash, w)
  hashed (bad out, w) = (failed no_hash, w)

  unfoldable pub sent : Ran × Checkout R → Outcome
  unfolding hashed sanitize
  sent (ok out, w) = hashed (git hash_command w)
  sent (bad out, w) = (failed (not_pushed (sanitize out)), w)

  -- The hash is taken whether rev-parse fails or not.
  abbrev unchanged : Ran × Checkout R → Outcome
  unchanged (ran, w) = (done (output ran), w)

  unfoldable pub committed : Ran × Checkout R → Outcome
  unfolding sent sanitize
  committed (ok out, w) = sent (git push_command w)
  committed (bad out, w) =
      if nothing_new out
      then unchanged (git hash_command w)
      else (failed (not_committed (sanitize out)), w)

  unfoldable pub added : Ran × Checkout R → Outcome
  unfolding committed sanitize
  added (ok out, w) = committed (git (commit_command message) w)
  added (bad out, w) = (failed (not_added (sanitize out)), w)

  -- Replaces the contents of the directory, but for .git.
  unfoldable pub replace_files : Checkout R → Outcome
  unfolding added clear_files copy_dir cut_at
  replace_files (files, r) =
      if fails read_dir
      then (failed unreadable, (files, r))
      else if any
          (λ (f : String × String). is_outside f.0 && fails (remove_entry (cut_at "/" f.0).0)) files
      then (failed not_removed, (files, r))
      else if fails copy_site
      then (failed not_copied, (files, r))
      else added (git add_command (copy_dir site (clear_files files), r))

  unfoldable pub connected : Ran × Checkout R → Outcome
  unfolding replace_files sanitize
  connected (ok out, w) = replace_files w
  connected (bad out, w) = (failed (not_connected (sanitize out)), w)

  unfoldable pub initialized : String → Ran × Checkout R → Outcome
  unfolding connected sanitize
  initialized out (ok out2, w) = connected (git (remote_command repo) w)
  initialized out (bad out2, w) = (failed (not_cloned (sanitize out)), w)

  unfoldable pub cloned : Ran × Checkout R → Outcome
  unfolding initialized
  cloned (ok out, w) = replace_files w
  cloned (bad out, w) = if is_new out then replace_files w else initialized out (git init_command w)

  -- In a new directory.
  unfoldable pub push : R → Outcome
  unfolding cloned
  push r =
      if fails make_dir
      then (failed no_directory, ([], r))
      else cloned (git (clone_command repo) ([], r))
