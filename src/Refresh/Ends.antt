-- ===== src/Refresh/Ends.antt =====
-- A request ends.
use cosmic_bwarden.Base.{
  ℕ, ◌<◌, ◌≤◌, ◌+◌, suc, String, Option, none, some, List, ◌≡◌, ◌⊎◌, inl, inr, refl, arith,
  Bool-cases, string_eq, ◌==◌, subst,
}
use cosmic_bwarden.CipherString.{Keys}
use cosmic_bwarden.State.{State, access_token_of, refresh_token_of}
use cosmic_bwarden.Refresh.{
  Reply, ok, err, request_unauthorized, is_unauthorized, Point, waiting, restoring, redeeming,
  restored, trying, rejected, refreshing, exchanging, retrying, finished, failed, Event, granted,
  proceeds, session_loaded, redeem_or_fail, replied, exchanged, advance, retry_or_refresh,
  exchange_or_fail, tried, restore_or_try, try_restored, answered,
}
use cosmic_bwarden.Refresh.Attempts.{Sent, Run, begins, moves, disturbed, point_or}

module _ (A : Type 0) where
  -- How many sections a request has before it at most.
  abbrev pub rank : Point A → ℕ
  rank (waiting keys) = 9
  rank (restoring keys) = 8
  rank (redeeming rt) = 7
  rank restored = 6
  rank (trying at) = 5
  rank (rejected at) = 4
  rank (refreshing at) = 3
  rank (exchanging at rt) = 2
  rank (retrying at now) = 1
  rank (finished a) = 0
  rank (failed e) = 0

  unfoldable pub sections :
      {p0 : Point A × State} {p : Point A} {s : State} {sent : List Sent} → Run A p0 p s sent → ℕ
  sections begins = 0
  sections (moves e r h) = suc (sections r)
  sections (disturbed t r) = sections r

  rank-eq :
      (n : ℕ) (p q : Point A) (s t : State)
      → rank p < n
      → ◌≡◌ {A = Option (Point A × State)} (some (p, s)) (some (q, t))
      → rank q < n
  rank-eq n p q s t l h = subst (λ (x : Option (Point A × State)). rank (point_or A p x) < n) h l

  restore_or_try-rank : (keys : Keys) (o : Option String) → rank (restore_or_try keys o) < 9
  restore_or_try-rank keys none = omega arith
  restore_or_try-rank keys (some at) = omega arith

  redeem_or_fail-rank : (l : String ⊎ Option String) → rank (redeem_or_fail l) < 8
  redeem_or_fail-rank (inl reason) = omega arith
  redeem_or_fail-rank (inr none) = omega arith
  redeem_or_fail-rank (inr (some rt)) = omega arith

  try_restored-rank : (o : Option String) → rank (try_restored o) < 6
  try_restored-rank none = omega arith
  try_restored-rank (some at) = omega arith

  tried-rank : (at : String) (r : Reply A) → rank (tried at r) < 5
  tried-rank at (ok a) = omega arith
  tried-rank at (err e) = elim (Bool-cases (is_unauthorized e)) [
    | inl h ↦ rw h (omega arith)
    | inr h ↦ rw h (omega arith)
  ]

  retry_or_refresh-rank : (at : String) (o : Option String) → rank (retry_or_refresh at o) < 4
  retry_or_refresh-rank at none = omega arith
  retry_or_refresh-rank at (some now) = elim (Bool-cases (now == at)) [
    | inl h ↦ rw h (omega arith)
    | inr h ↦ rw h (omega arith)
  ]

  exchange_or_fail-rank : (at : String) (o : Option String) → rank (exchange_or_fail at o) < 3
  exchange_or_fail-rank at none = omega arith
  exchange_or_fail-rank at (some rt) = omega arith

  answered-rank : (r : Reply A) → rank (answered r) < 1
  answered-rank (ok a) = omega arith
  answered-rank (err e) = omega arith

  advance-rank :
      (e : Event A) (p : Point A) (s : State) {q : Point A} {t : State}
      → advance e p s ≡ some (q, t)
      → rank q < rank p
  unfolding advance
  advance-rank granted (waiting keys) s h =
      rank-eq 9 _ _ _ _ (restore_or_try-rank keys (access_token_of s.db)) h
  advance-rank (session_loaded l) (restoring keys) s h = rank-eq 8 _ _ _ _ (redeem_or_fail-rank l) h
  advance-rank (exchanged (ok (new_at, new_rt))) (redeeming rt) s h =
      rank-eq 7 _ _ _ _ (omega arith) h
  advance-rank (exchanged (err e)) (redeeming rt) s h = rank-eq 7 _ _ _ _ (omega arith) h
  advance-rank proceeds restored s h =
      rank-eq 6 _ _ _ _ (try_restored-rank (access_token_of s.db)) h
  advance-rank (replied r) (trying at) s h = rank-eq 5 _ _ _ _ (tried-rank at r) h
  advance-rank granted (rejected at) s h =
      rank-eq 4 _ _ _ _ (retry_or_refresh-rank at (access_token_of s.db)) h
  advance-rank proceeds (refreshing at) s h =
      rank-eq 3 _ _ _ _ (exchange_or_fail-rank at (refresh_token_of s.db)) h
  advance-rank (exchanged (ok (new_at, new_rt))) (exchanging at rt) s h =
      rank-eq 2 _ _ _ _ (omega arith) h
  advance-rank (exchanged (err e)) (exchanging at rt) s h = rank-eq 2 _ _ _ _ (omega arith) h
  advance-rank (replied r) (retrying at now) s h = rank-eq 1 _ _ _ _ (answered-rank r) h
  advance-rank e p s h = absurd (cc)

  -- A point that is no end awaits an event.
  abbrev pub Awaits : Point A → State → Type 0
  Awaits p s = (e : Event A) × (q : Point A) × (t : State) × (advance e p s ≡ some (q, t))

  awaits : (p : Point A) (s : State) → (rank p ≡ 0) ⊎ Awaits p s
  unfolding advance
  awaits (waiting keys) s = inr (granted, _, _, refl)
  awaits (restoring keys) s = inr (session_loaded (inr none), _, _, refl)
  awaits (redeeming rt) s = inr (exchanged (err request_unauthorized), _, _, refl)
  awaits restored s = inr (proceeds, _, _, refl)
  awaits (trying at) s = inr (replied (err request_unauthorized), _, _, refl)
  awaits (rejected at) s = inr (granted, _, _, refl)
  awaits (refreshing at) s = inr (proceeds, _, _, refl)
  awaits (exchanging at rt) s = inr (exchanged (err request_unauthorized), _, _, refl)
  awaits (retrying at now) s = inr (replied (err request_unauthorized), _, _, refl)
  awaits (finished a) s = inl refl
  awaits (failed e) s = inl refl

  rank-le : (p : Point A) → rank p ≤ 9
  rank-le (waiting keys) = omega arith
  rank-le _ = omega arith

  sections-le :
      {p0 : Point A × State} {p : Point A} {s : State} {sent : List Sent} (r : Run A p0 p s sent)
      → sections r + rank p ≤ 9
  unfolding sections
  sections-le {p0 = p0} begins = omega (arith, rank-le p0.0)
  sections-le (moves {p = p} {s = s} e r h) = omega (arith, sections-le r, advance-rank e p s h)
  sections-le (disturbed t r) = sections-le r

  -- No run of a request has more than nine sections after the first, however its events come in; and as long as it
  -- has not ended, there is an event that moves it on.
  pub Run-ends :
      {p0 : Point A × State} {p : Point A} {s : State} {sent : List Sent} (r : Run A p0 p s sent)
      → (sections r + rank p ≤ 9) × ((rank p ≡ 0) ⊎ Awaits p s)
  Run-ends {p = p} {s = s} r = (sections-le r, awaits p s)
