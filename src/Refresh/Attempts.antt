-- ===== src/Refresh/Attempts.antt =====
-- What one request sends, on any course of events.
use cosmic_bwarden.Base.{
  String, Bool, true, false, Option, none, some, List, [], ◌∷◌, ◌++◌, ◌≡◌, ◌≢◌, ◌⊎◌, inl, inr, refl,
  arith, Bool-cases, ==_iff, string_eq, ◌==◌, subst, ap,
}
use cosmic_bwarden.CipherString.{Keys}
use cosmic_bwarden.State.{State, Db, access_token_of, refresh_token_of}
use cosmic_bwarden.Session.{ConfigRead, unreadable, no_email, has_email}
use cosmic_bwarden.Refresh.{
  Reply, ok, err, try_or_wait, loaded, begin_with, is_unauthorized, Point, waiting, restoring,
  redeeming, restored, trying, rejected, refreshing, exchanging, retrying, finished, failed, Event,
  granted, proceeds, session_loaded, redeem_or_fail, replied, exchanged, begin, advance,
  retry_or_refresh, exchange_or_fail, tried, restore_or_try, try_restored, answered,
}

-- What a request sends over the network: `f` with an access token, and a refresh token that is to be exchanged; a
-- restore within it is given no hash of the master password and sends none.
pub data Sent : Type 0 where
  call : String → Sent
  exchange : String → Sent

abbrev pub sent_at : {A : Type 0} → Point A → List Sent
sent_at (trying at) = call at ∷ []
sent_at (redeeming rt) = exchange rt ∷ []
sent_at (exchanging at rt) = exchange rt ∷ []
sent_at (retrying at now) = call now ∷ []
sent_at p = []

module _ (A : Type 0) (p0 : Point A × State) where
  -- A run of one request from its first section, with what it has sent. Between two sections the state may become any.
  pub data Run : Point A → State → List Sent → Type 0 where
    begins : Run p0.0 p0.1 (sent_at p0.0)
    moves :
        {p q : Point A} {s t : State} {sent : List Sent} (e : Event A)
        → Run p s sent
        → advance e p s ≡ some (q, t)
        → Run q t (sent ++ sent_at q)
    disturbed :
        {p : Point A} {s : State} {sent : List Sent} (t : State) → Run p s sent → Run p t sent

-- What comes before the first call: nothing, or the refresh token of the session file.
pub data Opening : List Sent → Type 0 where
  unopened : Opening []
  redeemed : (rt : String) → Opening (exchange rt ∷ [])

-- The courses that a request may take; with `true`, those at whose end the server may have answered.
pub data Course : Bool → List Sent → Type 0 where
  no_call : {o : List Sent} → Opening o → Course false o
  once : {o : List Sent} (b : Bool) (at : String) → Opening o → Course b (o ++ call at ∷ [])
  refresh_refused :
      {o : List Sent} (at rt : String) → Opening o → Course false (o ++ call at ∷ exchange rt ∷ [])
  repeated :
      {o : List Sent} (b : Bool) (at now : String)
      → Opening o
      → at ≢ now
      → Course b (o ++ call at ∷ call now ∷ [])
  renewed :
      {o : List Sent} (b : Bool) (at rt now : String)
      → Opening o
      → Course b (o ++ call at ∷ exchange rt ∷ call now ∷ [])

-- Sent after an opening.
abbrev Opened : List Sent → List Sent → Type 0
Opened then sent = (o : List Sent) × Opening o × (sent ≡ o ++ then)

abbrev Repeats : String → String → List Sent → Type 0
Repeats at now sent =
    ((at ≢ now) × Opened (call at ∷ call now ∷ []) sent)
    ⊎ ((rt : String) × Opened (call at ∷ exchange rt ∷ call now ∷ []) sent)

-- What has been sent when a request stands at a point.
abbrev pub Lawful : {A : Type 0} → Point A → List Sent → Type 0
Lawful (waiting keys) sent = sent ≡ []
Lawful (restoring keys) sent = sent ≡ []
Lawful (redeeming rt) sent = sent ≡ exchange rt ∷ []
Lawful restored sent = Opening sent
Lawful (trying at) sent = Opened (call at ∷ []) sent
Lawful (rejected at) sent = Opened (call at ∷ []) sent
Lawful (refreshing at) sent = Opened (call at ∷ []) sent
Lawful (exchanging at rt) sent = Opened (call at ∷ exchange rt ∷ []) sent
Lawful (retrying at now) sent = Repeats at now sent
Lawful (finished a) sent = Course true sent
Lawful (failed e) sent = Course false sent

++-nil : (xs : List Sent) → xs ++ [] ≡ xs
++-nil [] = refl
++-nil (x ∷ xs) = ap (λ (r : List Sent). x ∷ r) (++-nil xs)

extended :
    {o : List Sent} (before after : List Sent)
    → Opening o
    → Opened (before ++ after) ((o ++ before) ++ after)
extended before after unopened = ([], unopened, refl)
extended before after (redeemed rt) = (exchange rt ∷ [], redeemed rt, refl)

module _ (A : Type 0) where
  abbrev pub point_or : Point A → Option (Point A × State) → Point A
  point_or p none = p
  point_or p (some x) = x.0

  abbrev Follows : Point A → List Sent → Type 0
  Follows q sent = Lawful q (sent ++ sent_at q)

  Follows-eq :
      (p q : Point A) (s t : State) (sent : List Sent)
      → Follows p sent
      → ◌≡◌ {A = Option (Point A × State)} (some (p, s)) (some (q, t))
      → Follows q sent
  Follows-eq p q s t sent f h =
      subst (λ (x : Option (Point A × State)). Follows (point_or p x) sent) h f

  restore_or_try-Follows : (keys : Keys) (o : Option String) → Follows (restore_or_try keys o) []
  restore_or_try-Follows keys none = refl
  restore_or_try-Follows keys (some at) = ([], unopened, refl)

  redeem_or_fail-Follows : (l : String ⊎ Option String) → Follows (redeem_or_fail l) []
  redeem_or_fail-Follows (inl reason) = no_call unopened
  redeem_or_fail-Follows (inr none) = no_call unopened
  redeem_or_fail-Follows (inr (some rt)) = refl

  try_restored-Follows :
      (o : Option String) (sent : List Sent) → Opening sent → Follows (try_restored o) sent
  try_restored-Follows none sent p = rw (++-nil sent) (no_call p)
  try_restored-Follows (some at) sent p = (sent, p, refl)

  tried-Follows :
      (at : String) (r : Reply A) {o : List Sent}
      → Opening o
      → Follows (tried at r) (o ++ call at ∷ [])
  tried-Follows at (ok a) {o = o} p = rw (++-nil (o ++ call at ∷ [])) (once true at p)
  tried-Follows at (err e) {o = o} p = elim (Bool-cases (is_unauthorized e)) [
    | inl h ↦ rw (h, ++-nil (o ++ call at ∷ [])) ((o, p, refl))
    | inr h ↦ rw (h, ++-nil (o ++ call at ∷ [])) (once false at p)
  ]

  retry_or_refresh-Follows :
      (at : String) (t : Option String) {o : List Sent}
      → Opening o
      → Follows (retry_or_refresh at t) (o ++ call at ∷ [])
  retry_or_refresh-Follows at none {o = o} p = rw (++-nil (o ++ call at ∷ [])) ((o, p, refl))
  retry_or_refresh-Follows at (some now) {o = o} p = elim (Bool-cases (now == at)) [
    | inl h ↦ rw (h, ++-nil (o ++ call at ∷ [])) ((o, p, refl))
    | inr h ↦
        rw h (inl ((ground (arith, ==_iff now at), extended (call at ∷ []) (call now ∷ []) p)))
  ]

  exchange_or_fail-Follows :
      (at : String) (t : Option String) {o : List Sent}
      → Opening o
      → Follows (exchange_or_fail at t) (o ++ call at ∷ [])
  exchange_or_fail-Follows at none {o = o} p = rw (++-nil (o ++ call at ∷ [])) (once false at p)
  exchange_or_fail-Follows at (some rt) p = extended (call at ∷ []) (exchange rt ∷ []) p

  Repeats-Course :
      (b : Bool) (at now : String) (sent : List Sent) → Repeats at now sent → Course b sent
  Repeats-Course b at now sent (inl (h, (o, p, e))) = rw e (repeated b at now p h)
  Repeats-Course b at now sent (inr (rt, (o, p, e))) = rw e (renewed b at rt now p)

  answered-Follows :
      (at now : String) (r : Reply A) (sent : List Sent)
      → Repeats at now sent
      → Follows (answered r) sent
  answered-Follows at now (ok a) sent l = rw (++-nil sent) (Repeats-Course true at now sent l)
  answered-Follows at now (err x) sent l = rw (++-nil sent) (Repeats-Course false at now sent l)

  exchanged-Repeats :
      (at rt now : String) {o : List Sent}
      → Opening o
      → Repeats at now ((o ++ call at ∷ exchange rt ∷ []) ++ call now ∷ [])
  exchanged-Repeats at rt now p = inr (rt, extended (call at ∷ exchange rt ∷ []) (call now ∷ []) p)

  advance-Follows :
      (e : Event A) (p : Point A) (s : State) {q : Point A} {t : State} (sent : List Sent)
      → Lawful p sent
      → advance e p s ≡ some (q, t)
      → Follows q sent
  unfolding advance
  advance-Follows granted (waiting keys) s sent l h =
      Follows-eq _ _ _ _ sent (rw l (restore_or_try-Follows keys (access_token_of s.db))) h
  advance-Follows (session_loaded r) (restoring keys) s sent l h =
      Follows-eq _ _ _ _ sent (rw l (redeem_or_fail-Follows r)) h
  advance-Follows (exchanged (ok (new_at, new_rt))) (redeeming rt) s sent l h =
      Follows-eq _ _ _ _ sent (rw l (redeemed rt)) h
  advance-Follows (exchanged (err e)) (redeeming rt) s sent l h =
      Follows-eq _ _ _ _ sent (rw l (no_call (redeemed rt))) h
  advance-Follows proceeds restored s sent l h =
      Follows-eq _ _ _ _ sent (try_restored-Follows (access_token_of s.db) sent l) h
  advance-Follows (replied r) (trying at) s sent (o, p, l) h =
      Follows-eq _ _ _ _ sent (rw l (tried-Follows at r p)) h
  advance-Follows granted (rejected at) s sent (o, p, l) h =
      Follows-eq _ _ _ _ sent (rw l (retry_or_refresh-Follows at (access_token_of s.db) p)) h
  advance-Follows proceeds (refreshing at) s sent (o, p, l) h =
      Follows-eq _ _ _ _ sent (rw l (exchange_or_fail-Follows at (refresh_token_of s.db) p)) h
  advance-Follows (exchanged (ok (new_at, new_rt))) (exchanging at rt) s sent (o, p, l) h =
      Follows-eq _ _ _ _ sent (rw l (exchanged-Repeats at rt new_at p)) h
  advance-Follows (exchanged (err e)) (exchanging at rt) s sent (o, p, l) h =
      Follows-eq _ _ _ _ sent
        (rw (l, ++-nil (o ++ call at ∷ exchange rt ∷ [])) (refresh_refused at rt p)) h
  advance-Follows (replied r) (retrying at now) s sent l h =
      Follows-eq _ _ _ _ sent (answered-Follows at now r sent l) h
  advance-Follows e p s sent l h = absurd (cc)

  try_or_wait-Lawful :
      (o : Option String) (cfg : ConfigRead) (keys : Option Keys)
      → Lawful {A = A} (try_or_wait o cfg keys) (sent_at {A = A} (try_or_wait o cfg keys))
  try_or_wait-Lawful (some at) cfg keys = ([], unopened, refl)
  try_or_wait-Lawful none (has_email m) none = no_call unopened
  try_or_wait-Lawful none (has_email m) (some k) = refl
  try_or_wait-Lawful none no_email keys = no_call unopened
  try_or_wait-Lawful none (unreadable e) keys = no_call unopened

  begin_with-Lawful :
      (persist : Bool) (cfg : ConfigRead) (tokens : Option (String × String)) (s : State)
      (db : Option Db)
      → Lawful
          (begin_with {A = A} persist cfg tokens s db).0
          (sent_at (begin_with {A = A} persist cfg tokens s db).0)
  begin_with-Lawful persist (unreadable e) tokens s db = no_call unopened
  begin_with-Lawful persist no_email tokens s none = no_call unopened
  begin_with-Lawful persist (has_email m) tokens s none = no_call unopened
  begin_with-Lawful persist no_email tokens s (some db) =
      try_or_wait-Lawful db.access_token no_email s.keys
  begin_with-Lawful persist (has_email m) tokens s (some db) =
      try_or_wait-Lawful (loaded persist (has_email m) tokens db).access_token (has_email m) s.keys

  -- Whatever the server answers and the other handlers do meanwhile, a request sends `f` at most twice and a refresh
  -- token at most twice, in one of the courses: nothing; one call; a call and a refresh that fails; two calls with
  -- different tokens; a call, a refresh and a second call; each of them at once or after the refresh token of the
  -- session file was sent. So one refresh token at most is sent before the first call and one after it. A result is
  -- returned only after a call.
  pub Run-Lawful :
      (persist : Bool) (cfg : ConfigRead) (tokens : Option (String × String)) (s0 : State)
      {p : Point A} {s : State} {sent : List Sent}
      → Run A (begin persist cfg tokens s0) p s sent
      → Lawful p sent
  unfolding begin
  Run-Lawful persist cfg tokens s0 begins = begin_with-Lawful persist cfg tokens s0 s0.db
  Run-Lawful persist cfg tokens s0 (moves {p = p} {s = s} {sent = sent} e r h) =
      advance-Follows e p s sent (Run-Lawful persist cfg tokens s0 r) h
  Run-Lawful persist cfg tokens s0 (disturbed t r) = Run-Lawful persist cfg tokens s0 r
