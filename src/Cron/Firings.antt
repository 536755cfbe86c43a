-- ===== src/Cron/Firings.antt =====
-- What the search and the due firing of crates/pos-sched/src/cron.rs answer.
use projectos_core.Cron.{
  start_of_next_day, start_of_next_hour, start_of_minute, preview, runs_from,
  cron_preview_count_max, due_firing, cron_catchup_scan_count_max, due_of, first_or, go_on, scan,
  fires_after, next_fire_after, matches_date, search, CronExpr, CivilTime, bit_set,
  cron_search_step_count_max,
}
use projectos_core.Common.{
  length, lt→ltb, min, i64_max, subst, ltb→lt, Option-cases, ltb, Bool-cases, ℕ, zero, suc, ◌+◌,
  ◌-◌, ◌≤◌, ◌<◌, ◌≡◌, refl, ap, sym, ◌∙◌, inl, inr, ◌⊎◌, none, some, Option, List, [], ◌∷◌, arith,
  true, false,
}
use mathlib.Core.Option.{some_inj}

module _ {ℓ} {D : Type ℓ} (civil : CivilTime D) where
  -- The instant is that of a civil minute that the expression names, and lies after the start.
  pub record IsFiring (e : CronExpr) (after at : ℕ) : Type ℓ where
    pub minute_of : D
    pub date_named : matches_date civil e minute_of ≡ true
    pub hour_named : bit_set e.hours (civil.hour minute_of) ≡ true
    pub minute_named : bit_set e.minutes (civil.minute minute_of) ≡ true
    pub instant_of : civil.resolve minute_of ≡ some at
    pub later : after < at

  go_on-some :
      (o : Option D) (k : D → Option ℕ) {at : ℕ}
      → go_on civil o k ≡ some at
      → (d : D) × (k d ≡ some at)
  go_on-some none k h = cc
  go_on-some (some d) k h = (d, h)

  fires_after-some :
      (after : ℕ) (o : Option ℕ) {at : ℕ}
      → fires_after civil after o ≡ some at
      → (o ≡ some at) × (after < at)
  fires_after-some after none h = cc
  fires_after-some after (some n) h = elim (Bool-cases (ltb after n)) [
    | inl e ↦
        let q = some_inj.0 (rw e at h) in (ap some q, subst (λ m. after < m) q (ltb→lt after n e))
    | inr e ↦ cc (rw e at h)
  ]

  first_or-some :
      (o rest : Option ℕ) {at : ℕ}
      → first_or civil o rest ≡ some at
      → (o ≡ some at) ⊎ (rest ≡ some at)
  first_or-some none rest h = inr h
  first_or-some (some n) rest h = inl h

  search_sound :
      (e : CronExpr) (after steps : ℕ) (d : D) {at : ℕ}
      → search civil e after steps d ≡ some at
      → IsFiring e after at
  unfolding search
  search_sound e after zero d h = cc
  search_sound e after (suc steps) d h = elim (Bool-cases (matches_date civil e d)) [
    | inr date ↦
        let (d', q) =
          go_on-some (start_of_next_day civil d) (search civil e after steps) (rw date at h) in
        search_sound e after steps d' q
    | inl date ↦ elim (Bool-cases (bit_set e.hours (civil.hour d))) [
      | inr hour ↦
          let (d', q) =
            go_on-some (start_of_next_hour civil d) (search civil e after steps)
              (rw (date, hour) at h) in
          search_sound e after steps d' q
      | inl hour ↦ elim (Bool-cases (bit_set e.minutes (civil.minute d))) [
        | inr minute ↦
            let (d', q) =
              go_on-some (civil.add_minute d) (search civil e after steps)
                (rw (date, hour, minute) at h) in
            search_sound e after steps d' q
        | inl minute ↦
            elim (first_or-some (fires_after civil after (civil.resolve d)) _
              (rw (date, hour, minute) at h)) [
                | inr q ↦
                    let (d', q) = go_on-some (civil.add_minute d) (search civil e after steps) q in
                    search_sound e after steps d' q
                | inl q ↦
                    let (instant, later) = fires_after-some after _ q in
                    record {
                      minute_of = d;
                      date_named = date;
                      hour_named = hour;
                      minute_named = minute;
                      instant_of = instant;
                      later = later;
                    }
              ]
      ]
    ]
  ]

  -- The next firing of an expression is after the instant asked about, and is the instant of a civil
  -- minute whose date, hour and minute the expression all name: whatever the time zone does.
  pub next_fire_after_sound :
      (e : CronExpr) (after : ℕ) {at : ℕ}
      → next_fire_after civil e after ≡ some at
      → IsFiring e after at
  unfolding next_fire_after
  next_fire_after_sound e after h =
      let (now, h) = go_on-some (civil.of_instant after) _ h in
      let (minute, h) = go_on-some (start_of_minute civil now) _ h in
      let (start, h) =
        go_on-some (civil.add_minute minute) (search civil e after cron_search_step_count_max) h in
      search_sound e after cron_search_step_count_max start h

module _ (next : ℕ → Option ℕ) (forward : (c at : ℕ) → next c ≡ some at → c < at) where
  -- No firing after `c` has passed by now.
  abbrev pub IsLast : (now c : ℕ) → Type 0
  IsLast now c = (at : ℕ) → next c ≡ some at → now < at

  abbrev Found : (steps now cursor count : ℕ) → Option ℕ × ℕ → Type 0
  Found steps now cursor count r =
      (at : ℕ) × (r.0 ≡ some at)
      × (cursor < at)
      × (at ≤ now)
      × (count < r.1)
      × (r.1 ≤ count + steps)
      × ((r.1 < count + steps) → IsLast now at)

  -- How the scan ends: it counted nothing more, or it found a passed firing, which is the last one
  -- unless the steps ran out.
  abbrev Scanned : (steps now cursor : ℕ) → Option ℕ → ℕ → Option ℕ × ℕ → Type 0
  Scanned steps now cursor latest count r =
      ((r ≡ (latest, count)) × ((steps ≡ 0) ⊎ IsLast now cursor)) ⊎ Found steps now cursor count r

  one_more :
      (steps now cursor count n : ℕ) {r : Option ℕ × ℕ}
      → cursor < n
      → ltb now n ≡ false
      → Scanned steps now n (some n) (count + 1) r
      → Found (suc steps) now cursor count r
  one_more steps now cursor count n {r} past passed (inl (q, ended)) = (
    n,
    ap (λ p. p.0) q,
    past,
    ground (arith, passed),
    omega (arith, ap (λ p. p.1) q),
    omega (arith, ap (λ p. p.1) q),
    λ few. elim ended [
      | inl none_left ↦ absurd (omega (arith, few, none_left, ap (λ p. p.1) q))
      | inr last ↦ last
    ],
  )
  one_more steps now cursor count n past passed (inr (at, q, later, before, more, most, last)) = (
    at,
    q,
    omega (arith, later, past),
    before,
    omega (arith, more),
    omega (arith, most),
    λ few. last (omega (arith, few)),
  )

  scan_ends :
      (steps now cursor : ℕ) (latest : Option ℕ) (count : ℕ)
      → Scanned steps now cursor latest count (scan next steps now cursor latest count)
  unfolding scan
  scan_ends zero now cursor latest count = inl (refl, inl refl)
  scan_ends (suc steps) now cursor latest count = elim (Option-cases (next cursor)) [
    | inl e ↦ inl (rw e refl, inr λ at h. ground (arith, e, h))
    | inr (n, e) ↦ elim (Bool-cases (ltb now n)) [
      | inl over ↦ inl (
        rw (e, over) refl,
        inr λ at h. subst (λ m. now < m) (some_inj.0 (sym e ∙ h)) (ltb→lt now n over),
      )
      | inr passed ↦
          let same : scan next (suc steps) now cursor latest count
              ≡ scan next steps now n (some n) (count + 1) =
            rw (e, passed) refl in
          inr (
            subst (Found (suc steps) now cursor count) (sym same) (
              one_more steps now cursor count n (forward cursor n e) passed
                (scan_ends steps now n (some n) (count + 1))))
    ]
  ]

  due_of-some :
      (r : Option ℕ × ℕ) {at missed : ℕ}
      → due_of next r ≡ some (at, missed)
      → (r.0 ≡ some at) × (r.1 - 1 ≡ missed)
  due_of-some (none, n) h = cc
  due_of-some (some m, n) h = (ap some (ap (λ p. p.0) (some_inj.0 h)), ap (λ p. p.1) (some_inj.0 h))

  -- The firing that a tick owes, for a schedule whose next firing is always later: it is after the
  -- watermark and not after now, and fewer than 512 firings are reported as missed. If fewer than
  -- 511 are, it is the last one that has passed.
  pub due_firing_sound :
      (watermark now at missed : ℕ)
      → due_firing next watermark now ≡ some (at, missed)
      → (min watermark i64_max < at)
        × (at ≤ min now i64_max)
        × (missed < cron_catchup_scan_count_max)
        × (missed + 1 < cron_catchup_scan_count_max → IsLast (min now i64_max) at)
  unfolding due_firing
  due_firing_sound watermark now at missed h =
      let (q, n) =
        due_of-some
          (scan next cron_catchup_scan_count_max (min now i64_max) (min watermark i64_max) none 0)
          h in
      elim (scan_ends cron_catchup_scan_count_max (min now i64_max) (min watermark i64_max) none
        0) [
          | inl (r, _) ↦ absurd (ground (arith, sym (ap (λ p. p.0) r) ∙ q))
          | inr (at', q', later, before, more, most, last) ↦
              let same : at' ≡ at = some_inj.0 (sym q' ∙ q) in
              (
                omega (arith, later, same),
                omega (arith, before, same),
                omega (arith, n, more, most),
                λ few. subst (IsLast (min now i64_max)) same (last (omega (arith, few, n, more))),
              )
        ]

  scan_stopped :
      (steps now cursor : ℕ) → IsLast now cursor → scan next steps now cursor none 0 ≡ (none, 0)
  unfolding scan
  scan_stopped zero now cursor last = refl
  scan_stopped (suc steps) now cursor last = elim (Option-cases (next cursor)) [
    | inl e ↦ rw e refl
    | inr (n, e) ↦ rw (e, lt→ltb now n (last n e)) refl
  ]

  -- When the firing that a tick owes has become the watermark, a tick at the same instant owes none,
  -- if fewer than 511 firings were collapsed into it: a catch-up is done once. The schedule's next
  -- firing is always later.
  pub due_firing_once :
      (watermark now at missed : ℕ)
      → due_firing next watermark now ≡ some (at, missed)
      → missed + 1 < cron_catchup_scan_count_max
      → due_firing next at now ≡ none
  due_firing_once watermark now at missed h few =
      let (_, passed, _, last) = due_firing_sound watermark now at missed h in
      let kept : min at i64_max ≡ at = omega (arith, passed) in
      unfold due_firing in
      ap (due_of next) (
        ap (λ c. scan next cron_catchup_scan_count_max (min now i64_max) c none 0) kept
        ∙ scan_stopped cron_catchup_scan_count_max (min now i64_max) at (last few))

  -- The list ascends, from beyond `c`.
  abbrev pub IsAscending : ℕ → List ℕ → Type 0
  IsAscending c [] = Unit
  IsAscending c (at ∷ rest) = (c < at) × IsAscending at rest

  runs_from-IsAscending :
      (count c : ℕ)
      → IsAscending c (runs_from next count c) × (length (runs_from next count c) ≤ count)
  unfolding runs_from
  runs_from-IsAscending zero c = (tt, omega arith)
  runs_from-IsAscending (suc count) c = elim (Option-cases (next c)) [
    | inl e ↦ rw e (tt, omega arith)
    | inr (at, e) ↦
        let (up, few) = runs_from-IsAscending count at in
        rw e ((forward c at e, up), omega (arith, few))
  ]

  -- A preview is at most as long as was asked and as the limit of 32, and its firings ascend
  -- strictly from beyond the instant asked about, for a schedule whose next firing is always later.
  pub preview-IsAscending :
      (after count : ℕ)
      → IsAscending after (preview next after count)
        × (length (preview next after count) ≤ count)
        × (length (preview next after count) ≤ cron_preview_count_max)
  unfolding preview
  preview-IsAscending after count =
      let (up, few) = runs_from-IsAscending (min count cron_preview_count_max) after in
      (up, omega (arith, few), omega (arith, few))
