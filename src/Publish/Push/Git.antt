-- ===== src/Publish/Push/Git.antt =====
-- What Push relies on of git, and what its file operations make of a directory.
use ai_website_builder.Common.{
  String, Bool, true, false, ◌==◌, ◌≡◌, refl, Option, none, [], ◌∷◌, where_rows, is_some,
  if◌then◌else◌, arith, eq_iff,
}
use ai_website_builder.Common.Dict.{Dict, lookup, insert, lookup-insert, IsDistinct}
use ai_website_builder.Publish.Push.{
  Ran, ok, bad, is_outside, clear_files, copy_dir, Command, clone_command, init_command,
  remote_command, add_command, commit_command, push_command, is_new, nothing_new, Checkout,
}

-- A tree of git.
abbrev pub Files : Type 0
Files = String → Option String

-- The files of a directory, but for .git.
abbrev pub outside : Dict String → Files
outside files path = if is_outside path then lookup path files else none

abbrev pub is_cloned : Ran → Bool
is_cloned (ok out) = true
is_cloned (bad out) = is_new out

-- What Push relies on: `head` is the tree of the local commit, which stands in .git, `staged` that of
-- the index, `main` that of the remote's branch, which is its default branch. The site has no
-- .gitignore.
pub record IsGit {R : Type 0} (git : Command → Checkout R → Ran × Checkout R)
    (head staged : Checkout R → Files) (main : R → Files) : Type 0 where
  pub keeps_main :
      (c : Command) (w w1 : Checkout R) (ran : Ran)
      → (c.0 == "push") ≡ false
      → git c w ≡ (ran, w1)
      → main w1.1 ≡ main w.1
  pub push_main :
      (w w1 : Checkout R) (out : String) → git push_command w ≡ (ok out, w1) → main w1.1 ≡ head w
  pub clone_head :
      (repo : String) (w w1 : Checkout R) (ran : Ran)
      → git (clone_command repo) w ≡ (ran, w1)
      → is_cloned ran ≡ true
      → head w1 ≡ main w.1
  pub init_head :
      (w w1 : Checkout R) (out : String)
      → git init_command w ≡ (ok out, w1)
      → head w1 ≡ (λ path. none)
  pub remote_head :
      (repo : String) (w w1 : Checkout R) (out : String)
      → git (remote_command repo) w ≡ (ok out, w1)
      → head w1 ≡ head w
  pub files_head :
      (files files1 : Dict String) (r : R)
      → ((path : String) → is_outside path ≡ false → lookup path files1 ≡ lookup path files)
      → head (files1, r) ≡ head (files, r)
  pub add_head :
      (w w1 : Checkout R) (out : String) → git add_command w ≡ (ok out, w1) → head w1 ≡ head w
  pub add_staged :
      (w w1 : Checkout R) (out : String)
      → git add_command w ≡ (ok out, w1)
      → staged w1 ≡ outside w.0
  pub commit_head :
      (message : String) (w w1 : Checkout R) (out : String)
      → git (commit_command message) w ≡ (ok out, w1)
      → head w1 ≡ staged w
  pub commit_nothing :
      (message : String) (w w1 : Checkout R) (out : String)
      → git (commit_command message) w ≡ (bad out, w1)
      → nothing_new out ≡ true
      → staged w ≡ head w

-- Every path of the site is outside of .git.
abbrev pub AllOutside : Dict String → Type 0
AllOutside [] = Unit
AllOutside ((path, content) ∷ site) = (is_outside path ≡ true) × AllOutside site

pub lookup-clear_files :
    (path : String) (files : Dict String)
    → lookup path (clear_files files) ≡ (if is_outside path then none else lookup path files)
unfolding clear_files where_rows lookup
lookup-clear_files path [] = ground arith
lookup-clear_files path ((at, content) ∷ files) =
    ground (arith, lookup-clear_files path files, eq_iff at path)

pub lookup-copy_dir :
    (path : String) (site files : Dict String)
    → IsDistinct site
    → lookup path (copy_dir site files)
      ≡ (if is_some (lookup path site) then lookup path site else lookup path files)
unfolding copy_dir lookup
lookup-copy_dir path [] files distinct = refl
lookup-copy_dir path ((at, content) ∷ site) files distinct =
    let below = lookup-copy_dir path site (insert at content files) distinct.1 in
    ground (arith, below, lookup-insert at path content files, distinct.0, eq_iff at path)

pub lookup-inside :
    (path : String) (site : Dict String)
    → AllOutside site
    → is_outside path ≡ false
    → lookup path site ≡ none
unfolding lookup
lookup-inside path [] h inside = refl
lookup-inside path ((at, content) ∷ site) h inside =
    ground (arith, lookup-inside path site h.1 inside, h.0, eq_iff at path)

-- The directory after its contents were replaced.
pub replaced_outside :
    (site files : Dict String)
    → IsDistinct site
    → AllOutside site
    → (path : String) → outside (copy_dir site (clear_files files)) path ≡ lookup path site
replaced_outside site files distinct h path = ground (
  arith,
  lookup-copy_dir path site (clear_files files) distinct,
  lookup-clear_files path files,
  lookup-inside path site h,
)

pub replaced_inside :
    (site files : Dict String)
    → IsDistinct site
    → AllOutside site
    → (path : String) → is_outside path ≡ false
    → lookup path (copy_dir site (clear_files files)) ≡ lookup path files
replaced_inside site files distinct h path inside = ground (
  arith,
  lookup-copy_dir path site (clear_files files) distinct,
  lookup-clear_files path files,
  lookup-inside path site h inside,
)
