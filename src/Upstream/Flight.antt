-- ===== src/Upstream/Flight.antt =====
-- internal/upstream/manager.go: the callers of the manager, the first load and the background refresh
-- side by side, as steps on their common state. What a refresh or a load gets from the network, the
-- cache it stores and the mark it clears are one step, taken when it ends.
use mcpshield.Prelude.{
  ℕ, ◌+◌, ◌≤◌, Bool, true, false, Option, some, List, [], String, Result, ok, err, if◌then◌else◌,
  ◌≡◌, ◌↔◌, refl, sym, ap, ◌∙◌, arith, Bool-cases, Option-cases, inl, inr,
}
use mcpshield.Mcp.{Tool}
use mcpshield.Metrics.{Registry}
use mcpshield.Upstream.{
  Manager, ManagerError, Route, invalidate_cache, get_cache, bg_run, warmup_begin, warmup_end,
  do_refresh, commit_refresh, fetch_all,
}

-- a flag that says whether the one that runs is on its way
flag_down : (b : Bool) {k n : ℕ} → k ≡ (if b then 1 else 0) → k ≡ n + 1 → n ≡ 0
flag_down true counted more = ground arith
flag_down false counted more = ground arith

flag_counts : (b : Bool) {k : ℕ} → k ≡ (if b then 1 else 0) → (k ≤ 1) × ((k ≡ 1) ↔ (b ≡ true))
flag_counts true counted = (ground arith, (λ h. refl, λ h. counted))
flag_counts false counted = (ground arith, (λ h. absurd (ground arith), λ h. absurd (ground arith)))

-- The manager, what the network does, and how many background refreshes and first loads are on
-- their way.
pub record Shared (W : Type 0) : Type 0 where
  pub manager : Manager W
  pub world : W
  pub refreshes : ℕ
  pub loads : ℕ

module _ {W : Type 0} where
  -- One step: a read of the cache, which may start a refresh; the end of a refresh; the start and
  -- the end of a first load; an invalidation.
  pub data Step : Shared W → Shared W → Type 0 where
    read :
        (s : Shared W) (now : ℕ)
        → Step s (record s {
          manager = (get_cache now s.manager).2;
          refreshes = if (get_cache now s.manager).1 then s.refreshes + 1 else s.refreshes;
        })
    refreshed :
        (s : Shared W) (later n : ℕ)
        → s.refreshes ≡ n + 1
        → Step s (record s {
          manager = (bg_run later s.manager s.world).0;
          world = (bg_run later s.manager s.world).1;
          refreshes = n;
        })
    load_begun :
        (s : Shared W) (m : Manager W)
        → warmup_begin s.manager ≡ some m
        → Step s (record s { manager = m; loads = s.loads + 1 })
    load_ended :
        (s : Shared W) (later n : ℕ)
        → s.loads ≡ n + 1
        → Step s (record s {
          manager = (warmup_end later s.manager s.world).1;
          world = (warmup_end later s.manager s.world).2;
          loads = n;
        })
    invalidated : (s : Shared W) → Step s (record s { manager = invalidate_cache s.manager })

  pub data Steps : Shared W → Shared W → Type 0 where
    start : (s : Shared W) → Steps s s
    then_step : {s t u : Shared W} → Steps s t → Step t u → Steps s u

  -- nothing is on its way
  abbrev pub at_rest : Manager W → W → Shared W
  at_rest m w = record { manager = m; world = w; refreshes = 0; loads = 0 }

  -- The marks of the manager say what is on its way, and nothing is twice.
  pub record IsMarked (s : Shared W) : Type 0 where
    pub refreshes : s.refreshes ≡ (if s.manager.bg_refresh then 1 else 0)
    pub loads : s.loads ≡ (if s.manager.loading then 1 else 0)

  -- a refresh leaves both marks
  record KeepsMarks (m m' : Manager W) : Type 0 where
    pub bg_refresh : m'.bg_refresh ≡ m.bg_refresh
    pub loading : m'.loading ≡ m.loading

  commit_refresh-KeepsMarks :
      (later : ℕ) (m : Manager W)
      (fetched : Result ManagerError (List Tool × List (String × Route W))) (reg : Option Registry)
      → KeepsMarks m (commit_refresh later m fetched reg).1
  unfolding commit_refresh
  commit_refresh-KeepsMarks later m (err e) reg = record { bg_refresh = refl; loading = refl }
  commit_refresh-KeepsMarks later m (ok (tools, routes)) reg = record {
    bg_refresh = refl;
    loading = refl;
  }

  do_refresh-KeepsMarks :
      (later : ℕ) (m : Manager W) (w : W) → KeepsMarks m (do_refresh later m w).1
  unfolding do_refresh
  do_refresh-KeepsMarks later m w =
      commit_refresh-KeepsMarks later m (fetch_all m.entries [] [] m.metrics w).0
        (fetch_all m.entries [] [] m.metrics w).1

  -- what a read counts is what it marks
  get_cache-counted :
      (now : ℕ) (m : Manager W) (k : ℕ)
      → k ≡ (if m.bg_refresh then 1 else 0)
      → (if (get_cache now m).1 then k + 1 else k)
        ≡ (if (get_cache now m).2.bg_refresh then 1 else 0)
  unfolding get_cache
  get_cache-counted now m k counted = elim (Option-cases m.cached) [
    | inl absent ↦ ground (arith, absent, counted)
    | inr (c, found) ↦ ground (arith, found, counted)
  ]

  get_cache-loading : (now : ℕ) (m : Manager W) → (get_cache now m).2.loading ≡ m.loading
  unfolding get_cache
  get_cache-loading now m = elim (Option-cases m.cached) [
    | inl absent ↦ ground (arith, absent)
    | inr (c, found) ↦ ground (arith, found)
  ]

  -- A first load starts only where none is on its way, and marks that one is.
  warmup_begin-marks :
      (m m' : Manager W)
      → warmup_begin m ≡ some m'
      → (m.loading ≡ false) × ((m'.loading ≡ true) × (m'.bg_refresh ≡ m.bg_refresh))
  unfolding warmup_begin
  warmup_begin-marks m m' h = elim (Option-cases m.cached) [
    | inl absent ↦ elim (Bool-cases m.loading) [
      | inl t ↦ absurd (ground (arith, absent, t, h))
      | inr f ↦ (f, (ground (arith, absent, f, h), ground (arith, absent, f, h)))
    ]
    | inr (c, found) ↦ absurd (ground (arith, found, h))
  ]

  Step-IsMarked : {s u : Shared W} → Step s u → IsMarked s → IsMarked u
  unfolding get_cache bg_run warmup_begin warmup_end invalidate_cache
  Step-IsMarked (read s now) h = record {
    refreshes = get_cache-counted now s.manager s.refreshes h.refreshes;
    loads = h.loads ∙ ap (λ b. if b then 1 else 0) (sym (get_cache-loading now s.manager));
  }
  Step-IsMarked (refreshed s later n more) h = record {
    refreshes = flag_down s.manager.bg_refresh h.refreshes more;
    loads =
        h.loads
        ∙ ap (λ b. if b then 1 else 0)
            (sym (do_refresh-KeepsMarks later s.manager s.world).loading);
  }
  Step-IsMarked (load_begun s m begun) h =
      let (idle, (marked, same)) = warmup_begin-marks s.manager m begun in
      record {
        refreshes = h.refreshes ∙ ap (λ b. if b then 1 else 0) (sym same);
        loads = ground (arith, h.loads, idle, marked);
      }
  Step-IsMarked (load_ended s later n more) h = record {
    refreshes =
        h.refreshes
        ∙ ap (λ b. if b then 1 else 0)
            (sym (do_refresh-KeepsMarks later s.manager s.world).bg_refresh);
    loads = flag_down s.manager.loading h.loads more;
  }
  Step-IsMarked (invalidated s) h = record { refreshes = h.refreshes; loads = h.loads }

  Steps-IsMarked : {s u : Shared W} → Steps s u → IsMarked s → IsMarked u
  Steps-IsMarked (start s) h = h
  Steps-IsMarked (then_step before last) h = Step-IsMarked last (Steps-IsMarked before h)

  -- In whatever order the calls, the first loads and the refreshes of a fresh manager follow one
  -- another, at most one background refresh and at most one first load are ever on their way, each
  -- just while its mark stands.
  pub Steps-single :
      (m : Manager W) (w : W) {u : Shared W}
      → Steps (at_rest m w) u
      → m.bg_refresh ≡ false
      → m.loading ≡ false
      → (u.refreshes ≤ 1)
        × ((u.loads ≤ 1)
            × (((u.refreshes ≡ 1) ↔ (u.manager.bg_refresh ≡ true))
                × ((u.loads ≡ 1) ↔ (u.manager.loading ≡ true))))
  Steps-single m w {u} run idle unloaded =
      let h =
        Steps-IsMarked run
          (record { refreshes = ground (arith, idle); loads = ground (arith, unloaded) }) in
      let (few, lit) = flag_counts u.manager.bg_refresh h.refreshes in
      let (few', lit') = flag_counts u.manager.loading h.loads in (few, (few', (lit, lit')))
