-- ===== src/Publish/Push/Tests.antt =====
-- internal/publish/github.go: a push with a small git, over a branch that holds an old page.
use ai_website_builder.Common.{
  String, Bool, false, ◌==◌, ◌≡◌, ◌∙◌, refl, sym, ap, none, some, [], ◌∷◌, if◌then◌else◌,
}
use ai_website_builder.Common.Dict.{Dict, lookup}
use ai_website_builder.Publish.Push.{Ran, ok, FileCall, Command, Checkout, done, push}
use ai_website_builder.Publish.Push.Git.{Files, outside, IsGit}
use ai_website_builder.Publish.Push.Mirrors.{push-Ends}

-- The trees of main, of the local commit and of the index.
record Trees : Type 0 where
  main_tree : Files
  head_tree : Files
  staged_tree : Files

abbrev main_of : Trees → Files
main_of r = r.main_tree

abbrev head_of : Checkout Trees → Files
head_of w = w.1.head_tree

abbrev staged_of : Checkout Trees → Files
staged_of w = w.1.staged_tree

abbrev empty_tree : Files
empty_tree path = none

abbrev cloned_files : Dict String
cloned_files = (".git/HEAD", "main") ∷ ("old.html", "gone") ∷ []

-- Every command ends well.
abbrev small_git : Command → Checkout Trees → Ran × Checkout Trees
small_git (name, words) (files, r) = (
  ok "abc",
  (
    if name == "clone" then cloned_files else files,
    record {
      main_tree = if name == "push" then r.head_tree else r.main_tree;
      head_tree =
          if name == "clone"
          then r.main_tree
          else if name == "init"
          then empty_tree
          else if name == "commit"
          then r.staged_tree
          else r.head_tree;
      staged_tree = if name == "add" then outside files else r.staged_tree;
    },
  ),
)

small_git-IsGit : IsGit small_git head_of staged_of main_of
small_git-IsGit = record {
  keeps_main = λ c w w1 ran n e. ap (λ q. q.1.1.main_tree) (sym e) ∙ rw n refl;
  push_main = λ w w1 out e. ap (λ q. q.1.1.main_tree) (sym e);
  clone_head = λ repo w w1 ran e h. ap (λ q. q.1.1.head_tree) (sym e);
  init_head = λ w w1 out e. ap (λ q. q.1.1.head_tree) (sym e);
  remote_head = λ repo w w1 out e. ap (λ q. q.1.1.head_tree) (sym e);
  files_head = λ files files1 r h. refl;
  add_head = λ w w1 out e. ap (λ q. q.1.1.head_tree) (sym e);
  add_staged = λ w w1 out e. ap (λ q. q.1.1.staged_tree) (sym e);
  commit_head = λ message w w1 out e. ap (λ q. q.1.1.head_tree) (sym e);
  commit_nothing = λ message w w1 out e h. absurd (cc);
}

abbrev old_tree : Files
old_tree path = if path == "old.html" then some "gone" else none

abbrev trees : Trees
trees = record { main_tree = old_tree; head_tree = empty_tree; staged_tree = empty_tree }

abbrev new_site : Dict String
new_site = ("index.html", "hi") ∷ ("robots.txt", "all") ∷ []

abbrev all_well : FileCall → Bool
all_well call = false

push_hash : (push small_git all_well "me/site" new_site "Publish" trees).0 ≡ done "abc"
unfolding push
push_hash = refl

push-Ends_example :
    (push small_git all_well "me/site" new_site "Publish" trees).1.1.main_tree
    ≡ (λ path. lookup path new_site)
unfolding push lookup
push-Ends_example =
    push-Ends small_git head_of staged_of main_of all_well "me/site" new_site "Publish" "index.html"
      "hi" trees small_git-IsGit (refl, (refl, tt)) (refl, (refl, tt)) refl
