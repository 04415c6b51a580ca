-- ===== src/Refresh/Exclusive.antt =====
-- Several requests at once: the mutex keeps a refresh token from being spent twice.
use cosmic_bwarden.Refresh.Tokens.{
  holds, IsUnspent, spends, IsFresh, IsFree, InFlight, advance-Good, free_not, idle-InFlight,
  begin_with-idle, none-IsUnspent, new_token, spend-InFlight,
}
use cosmic_bwarden.Base.{
  ℕ, String, Bool, true, false, Option, some, List, [], ◌∷◌, ◌≡◌, ◌≢◌, All, ◌⊎◌, inl, inr, refl,
  arith, ==_iff, nat_eq, string_eq, ◌==◌, if◌then◌else◌, Bool-cases,
}
use cosmic_bwarden.State.{State, refresh_token_of}
use cosmic_bwarden.Refresh.{Point, failed, Failure, Event, granted, proceeds, advance, begin}
use cosmic_bwarden.Session.{ConfigRead}
use cosmic_bwarden.Session.Requests.{adopt_tokens}

-- The agent's state, the points of the requests, and the refresh tokens that the server has exchanged for others.
pub record World (A : Type 0) : Type 0 where
  pub state : State
  pub points : ℕ → Point A
  pub spent : List String

abbrev pub set_point : {A : Type 0} → (ℕ → Point A) → ℕ → Point A → ℕ → Point A
set_point f i p j = if i == j then p else f j

module _ (A : Type 0) where
  pub data Step (w : World A) : World A → Type 0 where
    -- A request begins; what it loads from the keyring was not exchanged before.
    starts :
        (i : ℕ) (persist : Bool) (cfg : ConfigRead) (tokens : Option (String × String))
        → holds (w.points i) ≡ false
        → IsUnspent w.spent (refresh_token_of (begin {A = A} persist cfg tokens w.state).1.db)
        → Step w (record w {
          state = (begin {A = A} persist cfg tokens w.state).1;
          points = set_point w.points i (begin persist cfg tokens w.state).0;
        })
    advances :
        (i : ℕ) (e : Event A) (q : Point A) (t : State)
        → IsFree e w.points
        → IsFresh e (w.points i) w.spent
        → advance e (w.points i) w.state ≡ some (q, t)
        → Step w (record {
          state = t;
          points = set_point w.points i q;
          spent = spends e (w.points i) w.spent;
        })
    -- The restore of an unlock, which does not take the mutex: the token that it exchanges is none that a request has
    -- sent, and the new one was not exchanged before.
    restores :
        (rt new_at new_rt : String)
        → ((i : ℕ) → InFlight (rt ∷ []) (w.points i))
        → All (λ x. x ≢ new_rt) (rt ∷ w.spent)
        → Step w
            (record w { state = adopt_tokens new_at (some new_rt) w.state; spent = rt ∷ w.spent })
    -- Any other handler, that exchanges no refresh token and brings none back that was exchanged.
    others :
        (t : State) → IsUnspent w.spent (refresh_token_of t.db) → Step w (record w { state = t })

  -- At most one request holds the mutex; neither the refresh token in memory nor one that is on its way to the
  -- server was exchanged before.
  abbrev pub Exclusive : World A → Type 0
  Exclusive w =
      ((i j : ℕ) → holds (w.points i) ≡ true → holds (w.points j) ≡ true → i ≡ j)
      × IsUnspent w.spent (refresh_token_of w.state.db)
      × ((i : ℕ) → InFlight w.spent (w.points i))

  pub data Reach : World A → Type 0 where
    start :
        (s : State) (e : ℕ → Failure)
        → Reach (record { state = s; points = λ i. failed (e i); spent = [] })
    next : {w v : World A} → Reach w → Step w v → Reach v

  -- The points after a section of request `i`, against those before.
  module _ (w : World A) (i : ℕ) (e : Event A) (q : Point A) (t : State) (x : Exclusive w) where
    same_holder :
        ((holds q ≡ false) ⊎ ((holds (w.points i) ≡ true) ⊎ (e ≡ granted)))
        → IsFree e w.points
        → (j : ℕ) → holds q ≡ true
        → holds (w.points j) ≡ true
        → i ≡ j
    same_holder (inl n) free j hq hj = absurd (cc)
    same_holder (inr (inl hp)) free j hq hj = x.0 i j hp hj
    same_holder (inr (inr g)) free j hq hj = absurd (free_not A e w.points j g free hj)

    one_holder :
        ((holds q ≡ false) ⊎ ((holds (w.points i) ≡ true) ⊎ (e ≡ granted)))
        → IsFree e w.points
        → (a b : ℕ) (ia ib : Bool) → (i == a) ≡ ia
        → (i == b) ≡ ib
        → holds (if ia then q else w.points a) ≡ true
        → holds (if ib then q else w.points b) ≡ true
        → a ≡ b
    one_holder g free a b true true ea eb ha hb = ground (arith, ==_iff i a, ==_iff i b)
    one_holder g free a b true false ea eb ha hb =
        ground (arith, ==_iff i a, same_holder g free b ha hb)
    one_holder g free a b false true ea eb ha hb =
        ground (arith, ==_iff i b, same_holder g free a hb ha)
    one_holder g free a b false false ea eb ha hb = x.0 a b ha hb

    others-InFlight :
        (spent : List String) (j : ℕ)
        → ((spent ≡ w.spent) ⊎ (holds (w.points i) ≡ true))
        → (i == j) ≡ false
        → InFlight spent (w.points j)
    others-InFlight spent j (inl same) ej = rw same (x.2 j)
    others-InFlight spent j (inr hp) ej = elim (Bool-cases (holds (w.points j))) [
      | inl h ↦ absurd (ground (arith, ==_iff i j, x.0 i j hp h))
      | inr h ↦ idle-InFlight A spent (w.points j) h
    ]

    points-InFlight :
        (spent : List String)
        → InFlight spent q
        → ((spent ≡ w.spent) ⊎ (holds (w.points i) ≡ true))
        → (j : ℕ) (ij : Bool) → (i == j) ≡ ij
        → InFlight spent (if ij then q else w.points j)
    points-InFlight spent fq g j true ej = fq
    points-InFlight spent fq g j false ej = others-InFlight spent j g ej

  Step-Exclusive : {w v : World A} → Step w v → Exclusive w → Exclusive v
  unfolding begin adopt_tokens
  Step-Exclusive {w = w} (starts i persist cfg tokens hi u) x =
      let r = begin {A = A} persist cfg tokens w.state in
      let hp = begin_with-idle A persist cfg tokens w.state w.state.db in
      (
        λ a b ha hb.
            one_holder w i proceeds r.0 r.1 x (inl hp) tt a b (i == a) (i == b) refl refl ha hb,
        u,
        λ j.
            points-InFlight w i proceeds r.0 r.1 x w.spent (idle-InFlight A w.spent r.0 hp)
              (inl refl) j (i == j) refl,
      )
  Step-Exclusive {w = w} (advances i e q t free fresh h) x =
      let g = advance-Good A e (w.points i) w.state w.spent (q, t) x.1 fresh h in
      (
        λ a b ha hb. one_holder w i e q t x g.0 free a b (i == a) (i == b) refl refl ha hb,
        g.1,
        λ j. points-InFlight w i e q t x (spends e (w.points i) w.spent) g.2 g.3 j (i == j) refl,
      )
  Step-Exclusive {w = w} (restores rt new_at new_rt n f) x = (
    x.0,
    new_token A new_at new_rt (rt ∷ w.spent) w.state.db f,
    λ i. spend-InFlight A rt w.spent (w.points i) (n i) (x.2 i),
  )
  Step-Exclusive (others t u) x = (x.0, u, x.2)

  -- Whatever number of requests runs at once, in any order of their sections and with any other handlers between:
  -- at most one of them holds the mutex, and a refresh token that was exchanged for another, by a request, its restore
  -- or an unlock, is neither in memory nor on its way from a request. The server hands out no token that was exchanged;
  -- neither the keyring, the session file nor another handler brings one back; and no unlock, which does not take the
  -- mutex, exchanges one that a request has sent and not heard of.
  pub Reach-Exclusive : {w : World A} → Reach w → Exclusive w
  Reach-Exclusive (start s e) =
      (λ i j hi hj. absurd (cc), none-IsUnspent A (refresh_token_of s.db), λ i. tt)
  Reach-Exclusive (next r st) = Step-Exclusive st (Reach-Exclusive r)
