-- ===== src/Cache/Spec.antt =====
-- What the cache promises: a store that never forgets an entry, read through the clock. The Cache
-- interface of internal/cache/cache.go, as sequences of timed calls, and the refinement.
use ai_website_builder.Common.{
  ℕ, ◌+◌, ◌≤◌, String, ◌≡◌, refl, Bool, true, false, Option, none, some, List, [], ◌∷◌, arith,
  eq_iff, if◌then◌else◌, ◌==◌, ap, sym, ◌∙◌, ap₂,
}
use ai_website_builder.Common.Dict.{
  lookup, insert, IsDistinct, lookup-insert, insert-IsDistinct, lookup-remove, remove-IsDistinct,
}
use ai_website_builder.Common.Strconv.{ℤ, pos, increment, parse_int, format_int}
use ai_website_builder.Cache.{
  MemEntry, MemCache, new_memory, value_of, get, set, delete, set_nx, incr, sweep, get_entry,
  set_absent, incr_found,
}
use ai_website_builder.Cache.View.{
  live, live-live, lookup-sweep_entries, sweep-IsDistinct, get_entry-live, view-get_entry,
  get_entry-IsDistinct,
}

pub data Call : Type 0 where
  gets : String → Call
  sets : String → String → ℕ → Call
  deletes : String → Call
  sets_nx : String → String → ℕ → Call
  incrs : String → ℕ → Call
  sweeps : Call

pub data Reply : Type 0 where
  found : Option String → Reply
  acquired : Bool → Reply
  counted : ℤ → Reply
  done : Reply

-- One call on the in-memory cache.
abbrev pub step : ℕ → Call → MemCache → Reply × MemCache
step now (gets k) c = let (v, c') = get now k c in (found v, c')
step now (sets k v ttl) c = (done, set now k v ttl c)
step now (deletes k) c = (done, delete k c)
step now (sets_nx k v ttl) c = let (b, c') = set_nx now k v ttl c in (acquired b, c')
step now (incrs k ttl) c = let (n, c') = incr now k ttl c in (counted n, c')
step now sweeps c = (done, sweep now c)

-- Each call comes some time after the one before.
unfoldable pub run : ℕ → MemCache → List (ℕ × Call) → List Reply
run t c [] = []
run t c ((d, call) ∷ calls) = let (r, c') = step (t + d) call c in r ∷ run (t + d) c' calls

-- The promise: the last entry written to a key counts until it expires.
abbrev pub Store : Type 0
Store = String → Option MemEntry

abbrev pub put : String → Option MemEntry → Store → Store
put k o s = λ j. if k == j then o else s j

abbrev pub fresh_entry : ℕ → String → ℕ → Option MemEntry
fresh_entry now v ttl = some (record { value = v; expires_at = now + ttl })

abbrev pub spec_set_nx : ℕ → String → String → ℕ → Store → Option MemEntry → Reply × Store
spec_set_nx now k v ttl s (some e) = (acquired false, s)
spec_set_nx now k v ttl s none = (acquired true, put k (fresh_entry now v ttl) s)

abbrev pub spec_incr : ℕ → String → ℕ → Store → Option MemEntry → Reply × Store
spec_incr now k ttl s none = (counted (pos 1), put k (fresh_entry now "1" ttl) s)
spec_incr now k ttl s (some e) =
    let n = increment (parse_int e.value) in
    (counted n, put k (some (record e { value = format_int n })) s)

abbrev pub spec_step : ℕ → Call → Store → Reply × Store
spec_step now (gets k) s = (found (value_of (live now (s k))), s)
spec_step now (sets k v ttl) s = (done, put k (fresh_entry now v ttl) s)
spec_step now (deletes k) s = (done, put k none s)
spec_step now (sets_nx k v ttl) s = spec_set_nx now k v ttl s (live now (s k))
spec_step now (incrs k ttl) s = spec_incr now k ttl s (live now (s k))
spec_step now sweeps s = (done, s)

unfoldable pub spec_run : ℕ → Store → List (ℕ × Call) → List Reply
spec_run t s [] = []
spec_run t s ((d, call) ∷ calls) =
    let (r, s') = spec_step (t + d) call s in r ∷ spec_run (t + d) s' calls

-- The cache and the store agree on what is live now.
pub record Agrees (t : ℕ) (c : MemCache) (s : Store) : Type 0 where
  pub distinct : IsDistinct c.m
  pub views : (k : String) → live t (lookup k c.m) ≡ live t (s k)

pub Agrees-later : {t u : ℕ} {c : MemCache} {s : Store} → t ≤ u → Agrees t c s → Agrees u c s
Agrees-later {t} {u} {c} {s} h a = record {
  distinct = a.distinct;
  views =
      λ k. sym (live-live t u (lookup k c.m) h) ∙ ap (live u) (a.views k) ∙ live-live t u (s k) h;
}

-- Writing one key on both sides keeps the agreement.
pub Agrees-insert :
    (t : ℕ) (c : MemCache) (s : Store) (k : String) (e : MemEntry)
    → Agrees t c s
    → Agrees t (record { m = insert k e c.m }) (put k (some e) s)
Agrees-insert t c s k e a = record {
  distinct = insert-IsDistinct k e c.m a.distinct;
  views = λ j. rw (lookup-insert k j e c.m) (ground (arith, a.views j, eq_iff k j));
}

Agrees-get_entry :
    (t : ℕ) (c : MemCache) (s : Store) (k : String) → Agrees t c s → Agrees t (get_entry t k c).1 s
Agrees-get_entry t c s k a = record {
  distinct = get_entry-IsDistinct t k c a.distinct;
  views = λ j. view-get_entry t k j c ∙ a.views j;
}

abbrev Matches : ℕ → Reply × MemCache → Reply × Store → Type 0
Matches t (r, c) (q, s) = (r ≡ q) × Agrees t c s

set_absent-Matches :
    (t : ℕ) (k v : String) (ttl : ℕ) (o : Option MemEntry) (c : MemCache) (s : Store)
    → Agrees t c s
    → Matches t
        (let (b, c') = set_absent t k v ttl (o, c) in (acquired b, c'))
        (spec_set_nx t k v ttl s o)
unfolding set_absent
set_absent-Matches t k v ttl none c s a = (refl, Agrees-insert t c s k _ a)
set_absent-Matches t k v ttl (some e) c s a = (refl, a)

incr_found-Matches :
    (t : ℕ) (k : String) (ttl : ℕ) (o : Option MemEntry) (c : MemCache) (s : Store)
    → Agrees t c s
    → Matches t (let (n, c') = incr_found t k ttl (o, c) in (counted n, c')) (spec_incr t k ttl s o)
unfolding incr_found
incr_found-Matches t k ttl none c s a = (refl, Agrees-insert t c s k _ a)
incr_found-Matches t k ttl (some e) c s a = (refl, Agrees-insert t c s k _ a)

pub step-Matches :
    (t : ℕ) (call : Call) (c : MemCache) (s : Store)
    → Agrees t c s
    → Matches t (step t call c) (spec_step t call s)
unfolding get set delete set_nx incr sweep
step-Matches t (gets k) c s a =
    (ap (λ o. found (value_of o)) (get_entry-live t k c ∙ a.views k), Agrees-get_entry t c s k a)
step-Matches t (sets k v ttl) c s a = (refl, Agrees-insert t c s k _ a)
step-Matches t (deletes k) c s a = (
  refl,
  record {
    distinct = remove-IsDistinct k c.m a.distinct;
    views = λ j. rw (lookup-remove k j c.m) (ground (arith, a.views j, eq_iff k j));
  },
)
step-Matches t (sets_nx k v ttl) c s a =
    rw (← a.views k, ← get_entry-live t k c)
      (set_absent-Matches t k v ttl _ _ s (Agrees-get_entry t c s k a))
step-Matches t (incrs k ttl) c s a =
    rw (← a.views k, ← get_entry-live t k c)
      (incr_found-Matches t k ttl _ _ s (Agrees-get_entry t c s k a))
step-Matches t sweeps c s a = (
  refl,
  record {
    distinct = sweep-IsDistinct t c.m a.distinct;
    views = λ j.
        rw (lookup-sweep_entries t j c.m a.distinct)
          (live-live t t (lookup j c.m) (omega arith) ∙ a.views j);
  },
)

run-spec_run_from :
    (t : ℕ) (c : MemCache) (s : Store) (calls : List (ℕ × Call))
    → Agrees t c s
    → run t c calls ≡ spec_run t s calls
unfolding run spec_run
run-spec_run_from t c s [] a = refl
run-spec_run_from t c s ((d, call) ∷ calls) a =
    let later : Agrees (t + d) c s = Agrees-later (omega arith) a in
    let m = step-Matches (t + d) call c s later in
    ap₂ ◌∷◌ m.0 (run-spec_run_from (t + d) _ _ calls m.1)

-- Whatever timed calls and janitor passes follow one another on a new in-memory cache, each
-- reply is the one of a store that never forgets: the last entry written, until it expires.
pub run-spec_run :
    (t : ℕ) (calls : List (ℕ × Call)) → run t new_memory calls ≡ spec_run t (λ k. none) calls
run-spec_run t calls =
    run-spec_run_from t new_memory (λ k. none) calls
      (record { distinct = tt; views = λ k. unfold lookup in refl })
