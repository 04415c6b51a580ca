-- ===== src/Examples/Refreshes.antt =====
-- Requests to the server whose token has expired.
use cosmic_bwarden.Base.{
  ℕ, ◌+◌, ◌≤◌, Bool, true, false, none, some, inr, List, [], ◌∷◌, ◌≡◌, ◌⊎◌, refl, ◌==◌, ==_iff,
  string_eq, String, ◌≢◌, arith, nat_eq, if◌then◌else◌,
}
use cosmic_bwarden.State.{State}
use cosmic_bwarden.Session.{ConfigRead, has_email}
use cosmic_bwarden.Session.Requests.{adopt_tokens}
use cosmic_bwarden.Refresh.{
  begin, advance, is_unauthorized, Point, ok, err, request_unauthorized, no_session, failed, trying,
  rejected, refreshing, exchanging, retrying, finished, replied, granted, proceeds, exchanged,
  session_loaded,
}
use cosmic_bwarden.Refresh.Attempts.{Sent, call, exchange, Run, begins, moves, Course, Run-Lawful}
use cosmic_bwarden.Refresh.Ends.{sections, rank, Awaits, Run-ends}
use cosmic_bwarden.Refresh.Tokens.{holds, InFlight}
use cosmic_bwarden.Refresh.Exclusive.{
  World, starts, advances, restores, Exclusive, Reach, start, next, Reach-Exclusive, set_point,
}
use cosmic_bwarden.Examples.Data.{opened, db}

abbrev config : ConfigRead
config = has_email "ada@example.com"

-- Unlocked, without an access token in memory.
abbrev signed_out : State
signed_out = record opened { db = some (record db { access_token = none }) }

abbrev first : Point ℕ × State
first = begin false config none signed_out

abbrev restored_state : State
restored_state = adopt_tokens "first" (some "next") signed_out

abbrev last_state : State
last_state = adopt_tokens "second" (some "last") restored_state

abbrev all_sent : List Sent
all_sent = exchange "stored" ∷ call "first" ∷ exchange "next" ∷ call "second" ∷ []

-- The longest run: the session is restored, the server rejects the new token at once, exchanges the new refresh token
-- and accepts the second call.
refreshed : Run ℕ first (finished 5) last_state all_sent
unfolding begin advance is_unauthorized adopt_tokens
refreshed =
    let at_call : Run ℕ first (trying "first") restored_state
        (exchange "stored" ∷ call "first" ∷ []) =
      moves proceeds
        (moves (exchanged (ok ("first", some "next")))
          (moves (session_loaded (inr (some "stored"))) (moves granted begins refl) refl) refl)
        refl in
    moves (replied (ok 5))
      (moves (exchanged (ok ("second", some "last")))
        (moves proceeds
          (moves granted (moves (replied (err request_unauthorized)) at_call refl) refl) refl)
        refl)
      refl

Run-Lawful_example : Course true all_sent
Run-Lawful_example = Run-Lawful ℕ false config none signed_out refreshed

Run-ends_example :
    (sections ℕ refreshed + rank ℕ (finished 5) ≤ 9)
    × ((rank ℕ (finished 5) ≡ 0) ⊎ Awaits ℕ (finished 5) last_state)
Run-ends_example = Run-ends ℕ refreshed

-- Two requests at once; the first holds the mutex and sends the refresh token.
abbrev idle : World ℕ
idle = record { state = opened; points = λ i. failed (no_session ""); spent = [] }

abbrev at_zero : World ℕ → Point ℕ → World ℕ
at_zero w p = record w { points = set_point w.points 0 p }

abbrev two : World ℕ
two = record idle { points = set_point (at_zero idle (trying "access")).points 1 (trying "access") }

two-Reach : Reach ℕ two
unfolding begin
two-Reach =
    next (next (start opened (λ i. no_session "")) (starts 0 false config none refl tt))
      (starts 1 false config none refl tt)

two_idle :
    (i j : Bool)
    → holds {A = ℕ} (
        if i
        then rejected "access"
        else if j
        then trying "access"
        else if i
        then trying "access"
        else failed (no_session ""))
      ≡ false
two_idle true j = refl
two_idle false true = refl
two_idle false false = refl

abbrev sending : World ℕ
sending =
    at_zero (at_zero (at_zero two (rejected "access")) (refreshing "access"))
      (exchanging "access" "refresh")

sending-Reach : Reach ℕ sending
unfolding advance is_unauthorized
sending-Reach =
    next
      (next (next two-Reach (advances 0 (replied (err request_unauthorized)) _ _ tt tt refl))
        (advances 0 granted _ _ (λ j. two_idle (0 == j) (1 == j)) tt refl))
      (advances 0 proceeds _ _ tt tt refl)

-- Its exchange is answered, and an unlock restores the session meanwhile.
abbrev renewed_world : World ℕ
renewed_world = record (at_zero sending (retrying "access" "second")) {
  state = adopt_tokens "second" (some "next") opened;
  spent = "refresh" ∷ [];
}

abbrev restored_world : World ℕ
restored_world = record renewed_world {
  state = adopt_tokens "third" (some "last") renewed_world.state;
  spent = "stored" ∷ "refresh" ∷ [];
}

differs : (a b : String) → (a == b) ≡ false → a ≢ b
differs a b h = ground (arith, ==_iff a b)

two_unsent :
    (i j : Bool)
    → InFlight {A = ℕ} ("stored" ∷ []) (
        if i
        then retrying "access" "second"
        else if i
        then exchanging "access" "refresh"
        else if i
        then refreshing "access"
        else if i
        then rejected "access"
        else if j
        then trying "access"
        else if i
        then trying "access"
        else failed (no_session ""))
two_unsent true j = tt
two_unsent false true = tt
two_unsent false false = tt

restored-Reach : Reach ℕ restored_world
unfolding advance adopt_tokens
restored-Reach =
    next
      (next sending-Reach (
        advances 0 (exchanged (ok ("second", some "next"))) _ _ tt
          (differs "refresh" "next" refl, tt) refl))
      (restores "stored" "third" "last" (λ j. two_unsent (0 == j) (1 == j))
        (differs "stored" "last" refl, (differs "refresh" "last" refl, tt)))

Reach-Exclusive_example : Exclusive ℕ restored_world
Reach-Exclusive_example = Reach-Exclusive ℕ restored-Reach
