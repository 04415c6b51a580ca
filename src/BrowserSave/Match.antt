-- ===== src/BrowserSave/Match.antt =====
-- What a login match means: only an entry with the submitted user and domain is named, and the one bit about the
-- password is the comparison with that entry's own.
use cosmic_bwarden.Base.{
  String, true, ◌≡◌, refl, inl, inr, Option, none, some, List, [], ◌∷◌, Text, Bool-cases, retain,
  find,
}
use cosmic_bwarden.Entry.{Entry}
use cosmic_bwarden.Protocol.{LoginMatch}
use cosmic_bwarden.State.{Platform}
use cosmic_bwarden.BrowserSave.{
  match_loop, login_matches, same_password, match_of, first_or_none, or_first,
}

-- The first element, or else the given one.
abbrev or_head : Option Entry → List Entry → Option Entry
or_head (some e) es = some e
or_head none [] = none
or_head none (e ∷ es) = some e

-- An entry that has the password, or else the first one without it.
abbrev choose_match : Option Entry → Option Entry → LoginMatch
choose_match (some e) first = match_of e true
choose_match none first = first_or_none first

or_head-or_first :
    (first : Option Entry) (e : Entry) (es : List Entry)
    → or_head (or_first first e) es ≡ or_head first (e ∷ es)
or_head-or_first none e es = refl
or_head-or_first (some f) e es = refl

module _ (p : Platform) (domain wanted : Text) (pw : String) where
  -- The entries with the user and the domain that were asked for.
  abbrev candidates : List Entry → List Entry
  candidates es = retain (λ e. login_matches p domain wanted e e.content) es

  loop-choose :
      (first : Option Entry) (es : List Entry)
      → match_loop p domain wanted pw first es
        ≡ choose_match
            (find (λ e. same_password p pw e.content) (candidates es))
            (or_head first (candidates es))
  loop-choose none [] = refl
  loop-choose (some f) [] = refl
  loop-choose first (e ∷ es) = elim (Bool-cases (login_matches p domain wanted e e.content)) [
    | inr m ↦ rw m (loop-choose first es)
    | inl m ↦ rw m (elim (Bool-cases (same_password p pw e.content)) [
      | inl s ↦ rw s refl
      | inr s ↦
          rw (s, loop-choose (or_first first e) es, or_head-or_first first e (candidates es)) refl
    ])
  ]

  -- The loop over the logins gives the first entry that has the user, the domain and the password, and says that the
  -- password matches; if there is none, the first entry that has the user and the domain, and says that it does not
  -- match; and no entry if there is none of these either. No entry of another user or domain is ever named.
  pub match_loop_lem :
      (es : List Entry)
      → match_loop p domain wanted pw none es
        ≡ choose_match
            (find (λ e. same_password p pw e.content) (candidates es))
            (or_head none (candidates es))
  match_loop_lem es = loop-choose none es
