-- ===== src/Cache/Kept.antt =====
-- What a get finds under a key that nobody else writes (internal/cache/cache.go).
use ai_website_builder.Common.{
  ℕ, ◌+◌, String, false, ◌==◌, ◌≡◌, ◌∙◌, refl, ap, Option, none, some, List, [], ◌∷◌, All, arith,
}
use ai_website_builder.Cache.{MemEntry, MemCache, value_of, get}
use ai_website_builder.Cache.View.{live, get_entry-live}
use ai_website_builder.Cache.Spec.{
  Call, gets, sets, deletes, sets_nx, incrs, sweeps, step, Store, spec_step, spec_set_nx, spec_incr,
  Agrees, Agrees-later, step-Matches,
}
use ai_website_builder.Cache.Locks.{after, elapsed}

-- A call that writes another key, or none.
abbrev pub Spares : String → Call → Type 0
Spares k (gets j) = Unit
Spares k (sets j v ttl) = (j == k) ≡ false
Spares k (deletes j) = (j == k) ≡ false
Spares k (sets_nx j v ttl) = (j == k) ≡ false
Spares k (incrs j ttl) = (j == k) ≡ false
Spares k sweeps = Unit

spared_nx :
    (now : ℕ) (j k v : String) (ttl : ℕ) (s : Store) (o : Option MemEntry)
    → (j == k) ≡ false
    → (spec_set_nx now j v ttl s o).1 k ≡ s k
spared_nx now j k v ttl s none h = rw h refl
spared_nx now j k v ttl s (some e) h = refl

spared_incr :
    (now : ℕ) (j k : String) (ttl : ℕ) (s : Store) (o : Option MemEntry)
    → (j == k) ≡ false
    → (spec_incr now j ttl s o).1 k ≡ s k
spared_incr now j k ttl s none h = rw h refl
spared_incr now j k ttl s (some e) h = rw h refl

spared :
    (now : ℕ) (k : String) (call : Call) (s : Store)
    → Spares k call
    → (spec_step now call s).1 k ≡ s k
spared now k (gets j) s h = refl
spared now k (sets j v ttl) s h = rw h refl
spared now k (deletes j) s h = rw h refl
spared now k (sets_nx j v ttl) s h = spared_nx now j k v ttl s (live now (s j)) h
spared now k (incrs j ttl) s h = spared_incr now j k ttl s (live now (s j)) h
spared now k sweeps s h = refl

-- Where cache and store agree, a later get finds the store's entry, if it has not expired.
pub get-after :
    (t : ℕ) (k : String) (calls : List (ℕ × Call)) (c : MemCache) (s : Store)
    → Agrees t c s
    → All (λ call. Spares k call.1) calls
    → (get (t + elapsed calls) k (after t c calls)).0 ≡ value_of (live (t + elapsed calls) (s k))
unfolding after get
get-after t k [] c s a h =
    let same : t + 0 ≡ t = omega arith in rw same (ap value_of (get_entry-live t k c ∙ a.views k))
get-after t k ((d, call) ∷ calls) c s a h =
    let m = step-Matches (t + d) call c s (Agrees-later (omega arith) a) in
    let later =
      get-after (t + d) k calls (step (t + d) call c).1 (spec_step (t + d) call s).1 m.1 h.1 in
    let same : t + (d + elapsed calls) ≡ t + d + elapsed calls = omega arith in
    rw same
      (later ∙ ap (λ o. value_of (live (t + d + elapsed calls) o)) (spared (t + d) k call s h.0))
