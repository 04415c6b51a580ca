-- ===== src/Refresh/Tokens.antt =====
-- What one section of a request does to the mutex and to the refresh tokens.
use cosmic_bwarden.Base.{
  ℕ, String, Bool, true, false, Option, none, some, List, [], ◌∷◌, ◌≡◌, ◌≢◌, ◌⊎◌, inl, inr, refl,
  arith, nat_eq, string_eq, ◌==◌, subst, Bool-cases, All,
}
use cosmic_bwarden.State.{State, Db, access_token_of, refresh_token_of}
use cosmic_bwarden.Session.Requests.{adopt_tokens, with_tokens}
use cosmic_bwarden.Refresh.{
  Reply, ok, err, Point, waiting, restoring, redeeming, restored, trying, rejected, refreshing,
  exchanging, retrying, Event, granted, proceeds, session_loaded, redeem_or_fail, replied,
  exchanged, advance, restore_or_try, try_restored, tried, retry_or_refresh, exchange_or_fail,
  answered, is_unauthorized, begin_with, try_or_wait, loaded,
}
use cosmic_bwarden.Session.{ConfigRead, unreadable, no_email, has_email}
use cosmic_bwarden.CipherString.{Keys}

-- The points at which a request holds the mutex of the refresh.
abbrev pub holds : {A : Type 0} → Point A → Bool
holds (restoring keys) = true
holds (redeeming rt) = true
holds restored = true
holds (refreshing at) = true
holds (exchanging at rt) = true
holds (retrying at now) = true
holds p = false

abbrev pub IsUnspent : List String → Option String → Type 0
IsUnspent spent none = Unit
IsUnspent spent (some rt) = All (λ x. x ≢ rt) spent

-- The token that an exchange uses up: the server rotates it unless it answers without a new one.
abbrev pub spends : {A : Type 0} → Event A → Point A → List String → List String
spends (exchanged (ok (new_at, some new_rt))) (exchanging at rt) spent = rt ∷ spent
spends (exchanged (ok (new_at, some new_rt))) (redeeming rt) spent = rt ∷ spent
spends e p spent = spent

-- The server never hands out a refresh token that was exchanged before, and none such is in the session file.
abbrev pub IsFresh : {A : Type 0} → Event A → Point A → List String → Type 0
IsFresh (exchanged (ok (new_at, some new_rt))) (exchanging at rt) spent =
    All (λ x. x ≢ new_rt) (rt ∷ spent)
IsFresh (exchanged (ok (new_at, some new_rt))) (redeeming rt) spent =
    All (λ x. x ≢ new_rt) (rt ∷ spent)
IsFresh (session_loaded (inr (some rt))) p spent = IsUnspent spent (some rt)
IsFresh e p spent = Unit

-- The mutex is granted to one request at a time.
abbrev pub IsFree : {A : Type 0} → Event A → (ℕ → Point A) → Type 0
IsFree granted f = (j : ℕ) → holds (f j) ≡ false
IsFree e f = Unit

-- A refresh token that is on its way to the server was not exchanged before.
abbrev pub InFlight : {A : Type 0} → List String → Point A → Type 0
InFlight spent (exchanging at rt) = IsUnspent spent (some rt)
InFlight spent (redeeming rt) = IsUnspent spent (some rt)
InFlight spent p = Unit

module _ (A : Type 0) where
  -- What a section does for its own request.
  abbrev pub Good : Event A → Point A → List String → Point A × State → Type 0
  Good e p spent r =
      ((holds r.0 ≡ false) ⊎ ((holds p ≡ true) ⊎ (e ≡ granted)))
      × IsUnspent (spends e p spent) (refresh_token_of r.1.db)
      × InFlight (spends e p spent) r.0
      × ((spends e p spent ≡ spent) ⊎ (holds p ≡ true))

  abbrev reached : Point A × State → Option (Point A × State) → Point A × State
  reached r none = r
  reached r (some x) = x

  Good-eq :
      (e : Event A) (p : Point A) (spent : List String) (r x : Point A × State)
      → Good e p spent r
      → ◌≡◌ {A = Option (Point A × State)} (some r) (some x)
      → Good e p spent x
  Good-eq e p spent r x g h =
      subst (λ (o : Option (Point A × State)). Good e p spent (reached r o)) h g

  restore_or_try-Good :
      (keys : Keys) (o : Option String) (spent : List String) (s : State)
      → IsUnspent spent (refresh_token_of s.db)
      → Good granted (waiting keys) spent (restore_or_try keys o, s)
  restore_or_try-Good keys none spent s u = (inr (inr refl), u, tt, inl refl)
  restore_or_try-Good keys (some at) spent s u = (inl refl, u, tt, inl refl)

  redeem_or_fail-Good :
      (keys : Keys) (l : String ⊎ Option String) (spent : List String) (s : State)
      → IsUnspent spent (refresh_token_of s.db)
      → IsFresh {A = A} (session_loaded l) (restoring keys) spent
      → Good (session_loaded l) (restoring keys) spent (redeem_or_fail l, s)
  redeem_or_fail-Good keys (inl reason) spent s u f = (inl refl, u, tt, inl refl)
  redeem_or_fail-Good keys (inr none) spent s u f = (inl refl, u, tt, inl refl)
  redeem_or_fail-Good keys (inr (some rt)) spent s u f = (inr (inl refl), u, f, inl refl)

  try_restored-Good :
      (o : Option String) (spent : List String) (s : State)
      → IsUnspent spent (refresh_token_of s.db)
      → Good proceeds restored spent (try_restored o, s)
  try_restored-Good none spent s u = (inl refl, u, tt, inl refl)
  try_restored-Good (some at) spent s u = (inl refl, u, tt, inl refl)

  tried-Good :
      (at : String) (r : Reply A) (spent : List String) (s : State)
      → IsUnspent spent (refresh_token_of s.db)
      → Good (replied r) (trying at) spent (tried at r, s)
  tried-Good at (ok a) spent s u = (inl refl, u, tt, inl refl)
  tried-Good at (err e) spent s u = elim (Bool-cases (is_unauthorized e)) [
    | inl h ↦ rw h (inl refl, u, tt, inl refl)
    | inr h ↦ rw h (inl refl, u, tt, inl refl)
  ]

  retry_or_refresh-Good :
      (at : String) (o : Option String) (spent : List String) (s : State)
      → IsUnspent spent (refresh_token_of s.db)
      → Good granted (rejected at) spent (retry_or_refresh at o, s)
  retry_or_refresh-Good at none spent s u = (inr (inr refl), u, tt, inl refl)
  retry_or_refresh-Good at (some now) spent s u = elim (Bool-cases (now == at)) [
    | inl h ↦ rw h (inr (inr refl), u, tt, inl refl)
    | inr h ↦ rw h (inr (inr refl), u, tt, inl refl)
  ]

  exchange_or_fail-Good :
      (at : String) (o : Option String) (spent : List String) (s : State)
      → refresh_token_of s.db ≡ o
      → IsUnspent spent o
      → Good proceeds (refreshing at) spent (exchange_or_fail at o, s)
  exchange_or_fail-Good at none spent s e u = (inl refl, rw e u, tt, inl refl)
  exchange_or_fail-Good at (some rt) spent s e u = (inr (inl refl), rw e u, u, inl refl)

  answered-Good :
      (at now : String) (r : Reply A) (spent : List String) (s : State)
      → IsUnspent spent (refresh_token_of s.db)
      → Good (replied r) (retrying at now) spent (answered r, s)
  answered-Good at now (ok a) spent s u = (inl refl, u, tt, inl refl)
  answered-Good at now (err e) spent s u = (inl refl, u, tt, inl refl)

  kept_token :
      (at : String) (spent : List String) (db : Option Db)
      → IsUnspent spent (refresh_token_of db)
      → IsUnspent spent (refresh_token_of (with_tokens at none db))
  kept_token at spent none u = tt
  kept_token at spent (some db) u = u

  pub new_token :
      (at rt : String) (spent : List String) (db : Option Db)
      → IsUnspent spent (some rt)
      → IsUnspent spent (refresh_token_of (with_tokens at (some rt) db))
  new_token at rt spent none u = tt
  new_token at rt spent (some db) u = u

  pub advance-Good :
      (e : Event A) (p : Point A) (s : State) (spent : List String) (x : Point A × State)
      → IsUnspent spent (refresh_token_of s.db)
      → IsFresh e p spent
      → advance e p s ≡ some x
      → Good e p spent x
  unfolding advance adopt_tokens
  advance-Good granted (waiting keys) s spent x u f h =
      Good-eq granted (waiting keys) spent _ x
        (restore_or_try-Good keys (access_token_of s.db) spent s u) h
  advance-Good (session_loaded l) (restoring keys) s spent x u f h =
      Good-eq (session_loaded l) (restoring keys) spent _ x (redeem_or_fail-Good keys l spent s u f)
        h
  advance-Good (exchanged (ok (new_at, none))) (redeeming rt) s spent x u f h =
      Good-eq (exchanged (ok (new_at, none))) (redeeming rt) spent _ x
        (inr (inl refl), kept_token new_at spent s.db u, tt, inl refl) h
  advance-Good (exchanged (ok (new_at, some new_rt))) (redeeming rt) s spent x u f h =
      Good-eq (exchanged (ok (new_at, some new_rt))) (redeeming rt) spent _ x
        (inr (inl refl), new_token new_at new_rt (rt ∷ spent) s.db f, tt, inr refl) h
  advance-Good (exchanged (err e)) (redeeming rt) s spent x u f h =
      Good-eq (exchanged (err e)) (redeeming rt) spent _ x (inl refl, u, tt, inl refl) h
  advance-Good proceeds restored s spent x u f h =
      Good-eq proceeds restored spent _ x (try_restored-Good (access_token_of s.db) spent s u) h
  advance-Good (replied r) (trying at) s spent x u f h =
      Good-eq (replied r) (trying at) spent _ x (tried-Good at r spent s u) h
  advance-Good granted (rejected at) s spent x u f h =
      Good-eq granted (rejected at) spent _ x
        (retry_or_refresh-Good at (access_token_of s.db) spent s u) h
  advance-Good proceeds (refreshing at) s spent x u f h =
      Good-eq proceeds (refreshing at) spent _ x
        (exchange_or_fail-Good at (refresh_token_of s.db) spent s refl u) h
  advance-Good (exchanged (ok (new_at, none))) (exchanging at rt) s spent x u f h =
      Good-eq (exchanged (ok (new_at, none))) (exchanging at rt) spent _ x
        (inr (inl refl), kept_token new_at spent s.db u, tt, inl refl) h
  advance-Good (exchanged (ok (new_at, some new_rt))) (exchanging at rt) s spent x u f h =
      Good-eq (exchanged (ok (new_at, some new_rt))) (exchanging at rt) spent _ x
        (inr (inl refl), new_token new_at new_rt (rt ∷ spent) s.db f, tt, inr refl) h
  advance-Good (exchanged (err e)) (exchanging at rt) s spent x u f h =
      Good-eq (exchanged (err e)) (exchanging at rt) spent _ x (inl refl, u, tt, inl refl) h
  advance-Good (replied r) (retrying at now) s spent x u f h =
      Good-eq (replied r) (retrying at now) spent _ x (answered-Good at now r spent s u) h
  advance-Good e p s spent x u f h = absurd (cc)

  pub free_not :
      (e : Event A) (f : ℕ → Point A) (j : ℕ) → e ≡ granted → IsFree e f → holds (f j) ≡ true → ⊥
  free_not granted f j g free h = ground (arith, free j)
  free_not proceeds f j g free h = absurd (cc)
  free_not (session_loaded l) f j g free h = absurd (cc)
  free_not (replied r) f j g free h = absurd (cc)
  free_not (exchanged r) f j g free h = absurd (cc)

  pub idle-InFlight : (spent : List String) (p : Point A) → holds p ≡ false → InFlight spent p
  idle-InFlight spent (exchanging at rt) h = absurd (cc)
  idle-InFlight spent (redeeming rt) h = absurd (cc)
  idle-InFlight spent (waiting keys) h = tt
  idle-InFlight spent _ h = tt

  pub spend-InFlight :
      (rt : String) (spent : List String) (p : Point A)
      → InFlight (rt ∷ []) p
      → InFlight spent p
      → InFlight (rt ∷ spent) p
  spend-InFlight rt spent (exchanging at now) n f = (n.0, f)
  spend-InFlight rt spent (redeeming now) n f = (n.0, f)
  spend-InFlight rt spent (waiting keys) n f = tt
  spend-InFlight rt spent _ n f = tt

  try_or_wait-idle :
      (o : Option String) (cfg : ConfigRead) (keys : Option Keys)
      → holds (try_or_wait {A = A} o cfg keys) ≡ false
  try_or_wait-idle (some at) cfg keys = refl
  try_or_wait-idle none (has_email m) none = refl
  try_or_wait-idle none (has_email m) (some k) = refl
  try_or_wait-idle none no_email keys = refl
  try_or_wait-idle none (unreadable e) keys = refl

  pub begin_with-idle :
      (persist : Bool) (cfg : ConfigRead) (tokens : Option (String × String)) (s : State)
      (db : Option Db)
      → holds (begin_with {A = A} persist cfg tokens s db).0 ≡ false
  begin_with-idle persist (unreadable e) tokens s db = refl
  begin_with-idle persist no_email tokens s none = refl
  begin_with-idle persist (has_email m) tokens s none = refl
  begin_with-idle persist no_email tokens s (some db) =
      try_or_wait-idle db.access_token no_email s.keys
  begin_with-idle persist (has_email m) tokens s (some db) =
      try_or_wait-idle (loaded persist (has_email m) tokens db).access_token (has_email m) s.keys

  pub none-IsUnspent : (o : Option String) → IsUnspent [] o
  none-IsUnspent none = tt
  none-IsUnspent (some rt) = tt
