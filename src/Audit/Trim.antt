-- ===== src/Audit/Trim.antt =====
-- What `TrimToSize` of internal/audit/sqlite_store.go leaves of the table.
use mcpshield.Prelude.{
  ℕ, zero, suc, ◌+◌, ◌-◌, ◌*◌, min, ◌≤◌, ◌<◌, Bool, true, false, ◌||◌, Option, none, some, List, [],
  ◌∷◌, ◌++◌, length, length-append, inl, inr, ◌⊎◌, ◌≡◌, refl, sym, ◌∙◌, ap, subst, Bool-cases, leb,
  leb→le, is_empty, if-elim, arith,
}
use mathlib.Core.List.{append_assoc}
use mcpshield.Audit.Hashing.{StoredEvent}
use mcpshield.Audit.Table.{drop_rows, next_round, errs_now, trim_rounds, trim_to_size}

-- The second list is the first without its `n` oldest rows, or empty if there are no more.
pub record Without (n : ℕ) (rows left : List StoredEvent) : Type 0 where
  pub cut : List StoredEvent
  pub split : rows ≡ cut ++ left
  pub count : length cut ≡ min n (length rows)

Without-zero : (rows : List StoredEvent) → Without 0 rows rows
Without-zero rows = record { cut = []; split = refl; count = omega arith }

drop_rows-Without : (n : ℕ) (rows : List StoredEvent) → Without n rows (drop_rows n rows)
unfolding drop_rows
drop_rows-Without zero rows = Without-zero rows
drop_rows-Without (suc n) [] = record { cut = []; split = refl; count = omega arith }
drop_rows-Without (suc n) (e ∷ es) =
    let w = drop_rows-Without n es in
    record { cut = e ∷ w.cut; split = ap (◌∷◌ e) w.split; count = omega (arith, w.count) }

Without-length :
    {n : ℕ} {rows left : List StoredEvent} → Without n rows left → length left ≡ length rows - n
Without-length {n} {rows} {left} w =
    omega
      (arith, ap (λ (x : List StoredEvent). length x) w.split, length-append w.cut left, w.count)

Without-add :
    (m n : ℕ) {rows some_left left : List StoredEvent}
    → Without m rows some_left
    → Without n some_left left
    → Without (m + n) rows left
Without-add m n {rows} {some_left} {left} v w = record {
  cut = v.cut ++ w.cut;
  split = v.split ∙ ap (◌++◌ v.cut) w.split ∙ sym (append_assoc v.cut w.cut left);
  count = omega (arith, v.count, w.count, length-append v.cut w.cut, Without-length v);
}

-- What the trimming comes to: it deletes the hundred oldest rows `rounds` times, each time from a
-- table that is too large and has rows. It ends with one that is small enough or empty, or with the
-- error of that round.
pub record Trimmed (size : List StoredEvent → ℕ) (max : ℕ) (fails : Option ℕ)
    (rows : List StoredEvent) (r : Bool × List StoredEvent) : Type 0 where
  pub rounds : ℕ
  pub left : Without (100 * rounds) rows r.1
  pub needed :
      (i : ℕ)
      → i < rounds
      → (kept : List StoredEvent) × Without (100 * i) rows kept
        × ((max < size kept) × (1 ≤ length kept))
  pub ends : r.0 ≡ true → (size r.1 ≤ max) ⊎ (r.1 ≡ [])
  pub error : r.0 ≡ false → fails ≡ some rounds

errs_now-zero : (fails : Option ℕ) → errs_now fails ≡ true → fails ≡ some 0
errs_now-zero none h = absurd (ground (arith, h))
errs_now-zero (some zero) h = refl
errs_now-zero (some (suc k)) h = absurd (ground (arith, h))

next_round-suc :
    (fails : Option ℕ) (k : ℕ)
    → errs_now fails ≡ false
    → next_round fails ≡ some k
    → fails ≡ some (suc k)
next_round-suc none k h e = absurd (ground (arith, e))
next_round-suc (some zero) k h e = absurd (ground (arith, h))
next_round-suc (some (suc j)) k h e = ground (arith, e)

is_empty-nil : (rows : List StoredEvent) → is_empty rows ≡ true → rows ≡ []
is_empty-nil [] h = refl
is_empty-nil (e ∷ es) h = absurd (ground (arith, h))

is_empty-pos : (rows : List StoredEvent) → is_empty rows ≡ false → 1 ≤ length rows
is_empty-pos [] h = absurd (ground (arith, h))
is_empty-pos (e ∷ es) h = omega arith

module _ (size : List StoredEvent → ℕ) (max : ℕ) where
  stopped-Trimmed :
      (fails : Option ℕ) (rows : List StoredEvent) (ok : Bool)
      → (ok ≡ true → (size rows ≤ max) ⊎ (rows ≡ []))
      → (ok ≡ false → fails ≡ some 0)
      → Trimmed size max fails rows (ok, rows)
  stopped-Trimmed fails rows ok done bad = record {
    rounds = 0;
    left = Without-zero rows;
    needed = λ i h. absurd (omega (arith, h));
    ends = done;
    error = bad;
  }

  next-Trimmed :
      (fails : Option ℕ) (rows : List StoredEvent) {r : Bool × List StoredEvent}
      → errs_now fails ≡ false
      → (max < size rows) × (1 ≤ length rows)
      → Trimmed size max (next_round fails) (drop_rows 100 rows) r
      → Trimmed size max fails rows r
  next-Trimmed fails rows {r} going large t =
      let first = drop_rows-Without 100 rows in
      record {
        rounds = suc t.rounds;
        left =
            subst (λ n. Without n rows r.1) (omega arith)
              (Without-add 100 (100 * t.rounds) first t.left);
        needed = earlier;
        ends = t.ends;
        error = λ h. next_round-suc fails t.rounds going (t.error h);
      }
    where
      earlier :
          (i : ℕ)
          → i < suc t.rounds
          → (kept : List StoredEvent) × Without (100 * i) rows kept
            × ((max < size kept) × (1 ≤ length kept))
      earlier zero h = (rows, Without-zero rows, large)
      earlier (suc i) h =
          let (kept, w, big) = t.needed i (omega (arith, h)) in
          (
            kept,
            subst (λ n. Without n rows kept) (omega arith)
                (Without-add 100 (100 * i) (drop_rows-Without 100 rows) w),
            big,
          )

  trim_rounds-Trimmed :
      (fuel : ℕ) (fails : Option ℕ) (rows : List StoredEvent)
      → length rows < fuel
      → Trimmed size max fails rows (trim_rounds size max fuel fails rows)
  unfolding trim_rounds
  trim_rounds-Trimmed zero fails rows h = absurd (omega (arith, h))
  trim_rounds-Trimmed (suc fuel) fails rows h =
      let K : Bool × List StoredEvent → Type 0 = Trimmed size max fails rows in
      if-elim K (errs_now fails)
        (λ bad.
          stopped-Trimmed fails rows false (λ e. absurd (ground (arith, e)))
            (λ _. errs_now-zero fails bad))
        λ going.
          if-elim K (leb (size rows) max || is_empty rows)
            (λ stop.
              stopped-Trimmed fails rows true
                (λ _. elim (Bool-cases (leb (size rows) max)) [
                  | inl small ↦ inl (leb→le (size rows) max small)
                  | inr large ↦ inr (is_empty-nil rows (ground (arith, stop, large)))
                ])
                (λ e. absurd (ground (arith, e))))
            λ more.
              let some_rows : 1 ≤ length rows = is_empty-pos rows (ground (arith, more)) in
              let large : max < size rows = ground (arith, more) in
              next-Trimmed fails rows going (large, some_rows)
                (trim_rounds-Trimmed fuel (next_round fails) (drop_rows 100 rows)
                  (omega (arith, h, some_rows, Without-length (drop_rows-Without 100 rows))))

-- Trimming deletes the oldest rows, a hundred at a time, and only from a table that is too large. It
-- returns nil with a table of the size asked for or an empty one, and an error only where `DBSize`
-- or the DELETE of that round fails.
pub trim_to_size-Trimmed :
    (size : List StoredEvent → ℕ) (max : ℕ) (fails : Option ℕ) (rows : List StoredEvent)
    → Trimmed size max fails rows (trim_to_size size max fails rows)
trim_to_size-Trimmed size max fails rows =
    trim_rounds-Trimmed size max (suc (length rows)) fails rows (omega arith)

-- Without errors the trimming returns nil.
pub trim_to_size-none :
    (size : List StoredEvent → ℕ) (max : ℕ) (rows : List StoredEvent)
    → (trim_to_size size max none rows).0 ≡ true
trim_to_size-none size max rows = elim (Bool-cases (trim_to_size size max none rows).0) [
  | inl done ↦ done
  | inr bad ↦ absurd (ground (arith, (trim_to_size-Trimmed size max none rows).error bad))
]
