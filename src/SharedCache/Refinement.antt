-- ===== src/SharedCache/Refinement.antt =====
-- The shared cache implements the cache of cache_state.c.
use pg_oauth_validator.SharedCache.System.{
  call, system_run, System, Call, carried_out, op_of, system_step, CallInRange, configures,
  looks_up_key, begins_key, completes_key, only_reads,
}
use pg_oauth_validator.CacheState.Invariant.{IsValid}
use mathlib.Core.List.{append-nil, append_assoc}
use pg_oauth_validator.CacheState.Types.{Cache, init, attach}
use pg_oauth_validator.CacheState.History.{
  Op, looks_up, begins, completes, run, InRange, step, run-init-IsValid, run-append,
}
use pg_oauth_validator.SharedCache.State.{
  Sizes, Registry, Segment, Backend, shared_cache_attach, new_backend, initialize_shared_cache,
  agrees, attach_segment, shared_cache_size, attach_view, cache_magic, cache_version, attach_when,
}
use pg_oauth_validator.SharedCache.Operations.{
  shared_cache_lookup, shared_cache_begin_refresh, shared_cache_complete_refresh,
  shared_cache_stats, locked_on, locked,
}
use pg_oauth_validator.Base.{
  [], ◌∷◌, none, some, true, false, Option, List, All, ℕ, ◌≡◌, get_or, ◌==◌, refl, Bool,
  if◌then◌else◌, ◌++◌, Bool-cases, is_none, inl, ◌∙◌, not, pos, inr, ap, arith, sym, ◌||◌,
  Option-cases, subst, All-append,
}

module _ (sizes : Sizes) (registry : Registry) where
  -- What a segment is once operations have been carried out: the initial one, with their cache.
  pub record Behind (ops : List Op) (s : Segment) : Type 0 where
    pub start : Cache
    pub start_is : init s.capacity ≡ some start
    pub cache_is : s.cache ≡ run start ops

  abbrev pub Refines : List Op → Option Segment → Type 0
  Refines ops none = ops ≡ []
  Refines ops (some s) = Behind ops s

  -- The registry as PostgreSQL documents it: the segment that is there, or a new one that the callback
  -- has initialized, unless it fails.
  abbrev pub Registers : Type 0
  Registers =
      ((s t : Segment) → (registry.get_named_segment (some s) t ≡ some s))
      × ((t : Segment) → registry.get_named_segment none t ≡ some t)

  init_positive : (n : ℕ) → (n == 0) ≡ false → Behind [] (initialize_shared_cache n)
  unfolding init run
  init_positive n h = record {
    start = (initialize_shared_cache n).cache;
    start_is = rw (h, init) refl;
    cache_is = refl;
  }

  attach_segment_keeps :
      (b : Backend) (old : Option Segment) (s : Segment)
      → (attach_segment b old (some s)).segment ≡ some s
  unfolding attach_segment attach_view
  attach_segment_keeps b old s =
      elim (Bool-cases (
        not (s.magic == cache_magic)
        || not (s.version == cache_version)
        || not (s.capacity == b.configured_capacity))) [
          | inl e ↦ rw e refl
          | inr e ↦ elim (Option-cases (attach s.cache.entries s.cache.control)) [
            | inl v ↦ rw (e, v, attach_view) refl
            | inr (view, v) ↦ rw (e, v, attach_view) refl
          ]
        ]

  size_positive : (n : ℕ) → is_none (shared_cache_size sizes (pos n)) ≡ false → (n == 0) ≡ false
  unfolding shared_cache_size
  size_positive n h = ground arith

  registered :
      (b : Backend) (s : Option Segment) (ops : List Op)
      → (b.configured_capacity == 0) ≡ false
      → Registers
      → Refines ops s
      → Refines ops
          (attach_segment b s
            (registry.get_named_segment s (initialize_shared_cache b.configured_capacity))).segment
  registered b none ops z r h =
      rw (r.1 (initialize_shared_cache b.configured_capacity), attach_segment_keeps, h)
        (init_positive b.configured_capacity z)
  registered b (some s) ops z r h =
      rw (r.0 s (initialize_shared_cache b.configured_capacity), attach_segment_keeps) h

  attach_when_keeps :
      (attached : Bool) (b : Backend) (s : Option Segment) (ops : List Op)
      → Registers
      → Refines ops s
      → Refines ops (attach_when sizes registry attached b s).segment
  unfolding attach_when
  attach_when_keeps true b s ops r h = h
  attach_when_keeps false b s ops r h =
      elim (Bool-cases (is_none (shared_cache_size sizes (pos b.configured_capacity)))) [
        | inl z ↦ rw z h
        | inr z ↦ rw z (registered b s ops (size_positive b.configured_capacity z) r h)
      ]

  attach_segment-some :
      (b : Backend) (old o : Option Segment)
      → (attach_segment b old o).result ≡ true
      → (t : Segment) × ((attach_segment b old o).segment ≡ some t)
  unfolding attach_segment
  attach_segment-some b old none h = absurd (cc h)
  attach_segment-some b old (some s) h = (s, attach_segment_keeps b old s)

  agrees-some :
      (b : Backend) (s : Option Segment) → agrees b s ≡ true → (t : Segment) × (s ≡ some t)
  agrees-some b none h = absurd (cc h)
  agrees-some b (some t) h = (t, refl)

  -- A backend that is attached has a segment.
  attach_when-some :
      (attached : Bool) (b : Backend) (s : Option Segment)
      → (attach_when sizes registry attached b s).result ≡ true
      → (t : Segment) × ((attach_when sizes registry attached b s).segment ≡ some t)
  unfolding attach_when
  attach_when-some true b s h = agrees-some b s h
  attach_when-some false b s h =
      elim (Bool-cases (is_none (shared_cache_size sizes (pos b.configured_capacity)))) [
        | inl z ↦ absurd (cc (rw z at h))
        | inr z ↦
            let o = registry.get_named_segment s (initialize_shared_cache b.configured_capacity) in
            rw z (attach_segment-some b s o (rw z at h))
      ]

  -- The work of an operation on the cache is what its history says.
  locked_on-Refines :
      {A : Type 0} (b : Backend) (s : Option Segment) (attached : Bool) (refused : A)
      (work : Cache → Cache × A) (ops op : List Op)
      → ((c : Cache) → (work c).0 ≡ run c op)
      → (attached ≡ true → (t : Segment) × (s ≡ some t))
      → Refines ops s
      → Refines (if attached then ops ++ op else ops) (locked_on b s attached refused work).segment
  unfolding locked_on
  locked_on-Refines b none false refused work ops op w t h = h
  locked_on-Refines b none true refused work ops op w t h = absurd (cc (t refl).1)
  locked_on-Refines b (some s) false refused work ops op w t h = h
  locked_on-Refines b (some s) true refused work ops op w t h = record {
    start = h.start;
    start_is = h.start_is;
    cache_is = w s.cache ∙ ap (λ c. run c op) h.cache_is ∙ sym (run-append h.start ops op);
  }

  -- What an operation of an attached backend does.
  locked-Refines :
      {A : Type 0} (b : Backend) (s : Option Segment) (refused : A) (work : Cache → Cache × A)
      (ops op : List Op)
      → Registers
      → ((c : Cache) → (work c).0 ≡ run c op)
      → Refines ops s
      → let a = shared_cache_attach sizes registry b s in
        Refines (if a.result then ops ++ op else ops) (locked a refused work).segment
  locked-Refines b s refused work ops op r w h =
      let a = shared_cache_attach sizes registry b s in
      locked_on-Refines a.backend a.segment a.result refused work ops op w
        (attach_when-some b.attached b s) (attach_when_keeps b.attached b s ops r h)

  no_op : (t : Bool) (ops : List Op) → (if t then ops ++ [] else ops) ≡ ops
  no_op true ops = append-nil ops
  no_op false ops = refl

  call-Refines :
      (b : Backend) (s : Option Segment) (c : Call) (ops : List Op)
      → Registers
      → Refines ops s
      → Refines
          (if (shared_cache_attach sizes registry b s).result then ops ++ op_of c else ops)
          (call sizes registry b s c).1
  unfolding call shared_cache_lookup shared_cache_begin_refresh shared_cache_complete_refresh
      shared_cache_stats run step
  call-Refines b s (configures capacity) ops r h =
      subst (λ x. Refines x s) (sym (no_op (shared_cache_attach sizes registry b s).result ops)) h
  call-Refines b s (looks_up_key k now allow size) ops r h =
      locked-Refines b s _ _ ops (looks_up k now allow ∷ []) r (λ c. refl) h
  call-Refines b s (begins_key k now u m) ops r h =
      locked-Refines b s _ _ ops (begins k now u m ∷ []) r (λ c. refl) h
  call-Refines b s (completes_key f now o) ops r h =
      locked-Refines b s _ _ ops (completes f now o ∷ []) r (λ c. refl) h
  call-Refines b s only_reads ops r h = locked-Refines b s _ _ ops [] r (λ c. refl) h

  more_ops :
      (t : Bool) (ops op rest : List Op)
      → (if t then ops ++ op else ops) ++ rest ≡ ops ++ (if t then op ++ rest else rest)
  more_ops true ops op rest = append_assoc ops op rest
  more_ops false ops op rest = refl

  system_run-Refines :
      (w : System) (cs : List (ℕ × Call)) (ops : List Op)
      → Registers
      → Refines ops w.segment
      → Refines (ops ++ carried_out sizes registry w cs) (system_run sizes registry w cs).segment
  unfolding system_run system_step carried_out
  system_run-Refines w [] ops r h = subst (λ x. Refines x w.segment) (sym (append-nil ops)) h
  system_run-Refines w ((i, c) ∷ cs) ops r h =
      let b = get_or w.backends i new_backend in
      let t = (shared_cache_attach sizes registry b w.segment).result in
      subst
        (λ x.
          Refines x (system_run sizes registry (system_step sizes registry w (i, c)) cs).segment)
        (more_ops t ops (op_of c)
          (carried_out sizes registry (system_step sizes registry w (i, c)) cs))
        (system_run-Refines (system_step sizes registry w (i, c)) cs
          (if t then ops ++ op_of c else ops) r (call-Refines b w.segment c ops r h))

  abbrev pub no_segment : List Backend → System
  no_segment backends = record { segment = none; backends = backends }

  -- Whatever the backends of a server call, from a start with no segment, and in whatever order the
  -- lock lets them: if there is a segment at the end, then its cache is what the operations of the
  -- calls that found their backend attached, one after the other, make of a new cache of its capacity.
  pub system_run-run :
      (backends : List Backend) (cs : List (ℕ × Call)) {s : Segment}
      → Registers
      → (system_run sizes registry (no_segment backends) cs).segment ≡ some s
      → Behind (carried_out sizes registry (no_segment backends) cs) s
  system_run-run backends cs {s} r e =
      subst (Refines (carried_out sizes registry (no_segment backends) cs)) e
        (system_run-Refines (no_segment backends) cs [] r refl)

  carried_out-InRange :
      (w : System) (cs : List (ℕ × Call))
      → All (λ (c : ℕ × Call). CallInRange c.1) cs
      → All InRange (carried_out sizes registry w cs)
  unfolding carried_out
  carried_out-InRange w [] h = tt
  carried_out-InRange w ((i, c) ∷ cs) h =
      let rest = carried_out-InRange (system_step sizes registry w (i, c)) cs h.1 in
      let b = get_or w.backends i new_backend in
      elim (Bool-cases (shared_cache_attach sizes registry b w.segment).result) [
        | inl e ↦ rw e (All-append InRange (op_of c) _ h.0 rest)
        | inr e ↦ rw e rest
      ]

  -- So the cache of the segment is sound whatever the backends call, with completions at int64 times.
  pub system_run-IsValid :
      (backends : List Backend) (cs : List (ℕ × Call)) {s : Segment}
      → Registers
      → All (λ (c : ℕ × Call). CallInRange c.1) cs
      → (system_run sizes registry (no_segment backends) cs).segment ≡ some s
      → IsValid s.cache
  system_run-IsValid backends cs {s} r h e =
      let b = system_run-run backends cs r e in
      rw b.cache_is (
        run-init-IsValid s.capacity (carried_out sizes registry (no_segment backends) cs) b.start_is
          (carried_out-InRange (no_segment backends) cs h))
