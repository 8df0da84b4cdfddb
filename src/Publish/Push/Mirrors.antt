-- ===== src/Publish/Push/Mirrors.antt =====
-- What Push makes of the remote: the branch main holds the site's files, or is as before.
use ai_website_builder.Common.{
  String, Bool, ◌&&◌, ◌≡◌, ◌∙◌, refl, sym, ap, none, some, [], any, if_cases, Bool-cases, inl, inr,
  ◌⊎◌,
}
use ai_website_builder.Common.Dict.{Dict, lookup, IsDistinct}
use ai_website_builder.Common.Strings.{cut_at}
use ai_website_builder.Publish.Push.{
  Ran, ok, bad, PushResult, done, failed, no_hash, not_pushed, not_committed, not_added, not_cloned,
  not_connected, no_directory, unreadable, not_removed, not_copied, FileCall, make_dir, read_dir,
  copy_site, remove_entry, is_outside, clear_files, copy_dir, Command, clone_command, init_command,
  remote_command, add_command, commit_command, push_command, hash_command, is_new, nothing_new,
  Checkout, hashed, sent, committed, added, replace_files, connected, initialized, cloned, push,
}
use ai_website_builder.Publish.Push.Git.{
  Files, outside, IsGit, AllOutside, replaced_outside, replaced_inside,
}

-- How a push ends: with the site on main, or, before git push, with main as it was.
abbrev pub Ends : {R : Type 0} → (R → Files) → Files → Files → PushResult × Checkout R → Type 0
Ends main old new (done hash, w) = main w.1 ≡ new
Ends main old new (failed no_hash, w) = main w.1 ≡ new
Ends main old new (failed (not_pushed out), w) = Unit
Ends main old new (failed (not_committed out), w) = main w.1 ≡ old
Ends main old new (failed (not_added out), w) = main w.1 ≡ old
Ends main old new (failed (not_cloned out), w) = main w.1 ≡ old
Ends main old new (failed (not_connected out), w) = main w.1 ≡ old
Ends main old new (failed no_directory, w) = main w.1 ≡ old
Ends main old new (failed unreadable, w) = main w.1 ≡ old
Ends main old new (failed not_removed, w) = main w.1 ≡ old
Ends main old new (failed not_copied, w) = main w.1 ≡ old

module _ {R : Type 0} (git : Command → Checkout R → Ran × Checkout R)
    (head staged : Checkout R → Files) (main : R → Files) (laws : IsGit git head staged main)
    (fails : FileCall → Bool) (repo : String) (site : Dict String) (message : String) (old : Files)
    (first content : String) (has_first : lookup first site ≡ some content) where
  files_of : Files
  files_of path = lookup path site

  -- Ready to replace the files: the local commit is that of main, or there is none.
  Ready : Checkout R → Type 0
  Ready w = (main w.1 ≡ old) × ((head w ≡ old) ⊎ (head w ≡ (λ path. none)))

  stays-Ready : (w w1 : Checkout R) → main w1.1 ≡ main w.1 → head w1 ≡ head w → Ready w → Ready w1
  unfolding Ready
  stays-Ready w w1 m h (kept, inl same) = (m ∙ kept, inl (h ∙ same))
  stays-Ready w w1 m h (kept, inr empty) = (m ∙ kept, inr (h ∙ empty))

  hashed-Ends :
      (q : Ran × Checkout R) (w : Checkout R)
      → git hash_command w ≡ q
      → main w.1 ≡ files_of
      → Ends main old files_of (hashed git fails repo site message q)
  unfolding hashed
  hashed-Ends (ok hash, w1) w e h = laws.keeps_main hash_command w w1 (ok hash) refl e ∙ h
  hashed-Ends (bad out, w1) w e h = laws.keeps_main hash_command w w1 (bad out) refl e ∙ h

  sent-Ends :
      (q : Ran × Checkout R) (w : Checkout R)
      → git push_command w ≡ q
      → head w ≡ files_of
      → Ends main old files_of (sent git fails repo site message q)
  unfolding sent
  sent-Ends (ok out, w1) w e h =
      hashed-Ends (git hash_command w1) w1 refl (laws.push_main w w1 out e ∙ h)
  sent-Ends (bad out, w1) w e h = tt

  -- There is nothing to commit: the site is what main holds.
  same_site : (w : Checkout R) → Ready w → files_of ≡ head w → main w.1 ≡ files_of
  unfolding Ready files_of
  same_site w (kept, inl same) h = kept ∙ sym same ∙ sym h
  same_site w (kept, inr empty) h = let none_first = ap (λ f. f first) (h ∙ empty) in absurd (cc)

  committed-Ends :
      (q : Ran × Checkout R) (w : Checkout R)
      → git (commit_command message) w ≡ q
      → staged w ≡ files_of
      → Ready w
      → Ends main old files_of (committed git fails repo site message q)
  unfolding committed Ready
  committed-Ends (ok out, w1) w e h r =
      sent-Ends (git push_command w1) w1 refl (laws.commit_head message w w1 out e ∙ h)
  committed-Ends (bad out, w1) w e h r = elim (Bool-cases (nothing_new out)) [
    | inl nothing ↦ rw nothing (
        laws.keeps_main hash_command w1 (git hash_command w1).1 (git hash_command w1).0 refl refl
        ∙ laws.keeps_main (commit_command message) w w1 (bad out) refl e
        ∙ same_site w r (sym h ∙ laws.commit_nothing message w w1 out e nothing))
    | inr other ↦ rw other (laws.keeps_main (commit_command message) w w1 (bad out) refl e ∙ r.0)
  ]

  added-Ends :
      (q : Ran × Checkout R) (w : Checkout R)
      → git add_command w ≡ q
      → outside w.0 ≡ files_of
      → Ready w
      → Ends main old files_of (added git fails repo site message q)
  unfolding added Ready
  added-Ends (ok out, w1) w e h r =
      committed-Ends (git (commit_command message) w1) w1 refl (laws.add_staged w w1 out e ∙ h) (
        stays-Ready w w1 (laws.keeps_main add_command w w1 (ok out) refl e)
          (laws.add_head w w1 out e) r)
  added-Ends (bad out, w1) w e h r = laws.keeps_main add_command w w1 (bad out) refl e ∙ r.0

  replace_files-Ends :
      (w : Checkout R)
      → IsDistinct site
      → AllOutside site
      → Ready w
      → Ends main old files_of (replace_files git fails repo site message w)
  unfolding replace_files files_of Ready
  replace_files-Ends (files, r) distinct all_outside h =
      let new = copy_dir site (clear_files files) in
      let inside = replaced_inside site files distinct all_outside in
      if_cases (Ends main old files_of) (fails read_dir) _ _ (λ _. h.0)
        (λ _.
          if_cases (Ends main old files_of)
            (any
              (λ (f : String × String). is_outside f.0 && fails (remove_entry (cut_at "/" f.0).0))
              files)
            _ _ (λ _. h.0)
            (λ _.
              if_cases (Ends main old files_of) (fails copy_site) _ _ (λ _. h.0)
                (λ _.
                  added-Ends (git add_command (new, r)) (new, r) refl
                    (λ i path. replaced_outside site files distinct all_outside path i)
                    (stays-Ready (files, r) (new, r) refl (laws.files_head files new r inside) h))))

  connected-Ends :
      (q : Ran × Checkout R) (w : Checkout R)
      → git (remote_command repo) w ≡ q
      → IsDistinct site
      → AllOutside site
      → Ready w
      → Ends main old files_of (connected git fails repo site message q)
  unfolding connected Ready
  connected-Ends (ok out, w1) w e d o r = replace_files-Ends w1 d o (
      stays-Ready w w1 (laws.keeps_main (remote_command repo) w w1 (ok out) refl e)
        (laws.remote_head repo w w1 out e) r)
  connected-Ends (bad out, w1) w e d o r =
      laws.keeps_main (remote_command repo) w w1 (bad out) refl e ∙ r.0

  initialized-Ends :
      (out : String) (q : Ran × Checkout R) (w : Checkout R)
      → git init_command w ≡ q
      → IsDistinct site
      → AllOutside site
      → main w.1 ≡ old
      → Ends main old files_of (initialized git fails repo site message out q)
  unfolding initialized Ready
  initialized-Ends out (ok out2, w1) w e d o m =
      connected-Ends (git (remote_command repo) w1) w1 refl d o
        (laws.keeps_main init_command w w1 (ok out2) refl e ∙ m, inr (laws.init_head w w1 out2 e))
  initialized-Ends out (bad out2, w1) w e d o m =
      laws.keeps_main init_command w w1 (bad out2) refl e ∙ m

  cloned-Ends :
      (q : Ran × Checkout R) (w : Checkout R)
      → git (clone_command repo) w ≡ q
      → IsDistinct site
      → AllOutside site
      → main w.1 ≡ old
      → Ends main old files_of (cloned git fails repo site message q)
  unfolding cloned Ready
  cloned-Ends (ok out, w1) w e d o m = replace_files-Ends w1 d o (
    laws.keeps_main (clone_command repo) w w1 (ok out) refl e ∙ m,
    inl (laws.clone_head repo w w1 (ok out) e refl ∙ m),
  )
  cloned-Ends (bad out, w1) w e d o m =
      let kept = laws.keeps_main (clone_command repo) w w1 (bad out) refl e ∙ m in
      elim (Bool-cases (is_new out)) [
        | inl new ↦
            rw new (
              replace_files-Ends w1 d o (kept, inl (laws.clone_head repo w w1 (bad out) e new ∙ m)))
        | inr other ↦ rw other (initialized-Ends out (git init_command w1) w1 refl d o kept)
      ]

-- With git as `IsGit` says, a push of a site that has a file, and none under .git, ends in one of
-- three ways, whatever the calls of git and of the file system do. When it returns a hash, or only
-- that hash was not to be had, the remote's main holds exactly the files of the site: all of them,
-- and none that an earlier publish left. When git push itself failed, nothing is said of main.
-- After any earlier failure main is what it was.
pub push-Ends :
    {R : Type 0} (git : Command → Checkout R → Ran × Checkout R) (head staged : Checkout R → Files)
    (main : R → Files) (fails : FileCall → Bool) (repo : String) (site : Dict String)
    (message first content : String) (r : R)
    → IsGit git head staged main
    → IsDistinct site
    → AllOutside site
    → lookup first site ≡ some content
    → Ends main (main r) (λ path. lookup path site) (push git fails repo site message r)
unfolding push files_of
push-Ends git head staged main fails repo site message first content r laws distinct all_outside h =
    if_cases (Ends main (main r) (λ path. lookup path site)) (fails make_dir) _ _ (λ _. refl)
      (λ _.
        cloned-Ends git head staged main laws fails repo site message (main r) first content h
          (git (clone_command repo) ([], r)) ([], r) refl distinct all_outside refl)
