-- ===== src/SshList.antt =====
-- crates/cosmarden-agent/src/ssh_agent/identities.rs: the identities that the SSH agent lists, also while locked.
use cosmic_bwarden.Base.{
  String, Bool, true, false, not, ◌≡◌, refl, ap, List, [], ◌∷◌, map, string_eq, if◌then◌else◌,
  Bool-cases, inl, inr,
}
use cosmic_bwarden.State.{
  broadcast, State, CachedSshIdentity, is_some_of, lock, clear_account, request_unlock,
}

-- `LOCKED_COMMENT_TOKEN` behind the comment, with a space between them.
abbrev pub join : String → String → String
join String.[] t = t
join (String.◌∷◌ c s) t = String.◌∷◌ c (join s t)

unfoldable pub locked_comment : String → String
locked_comment comment = join comment " [cosmarden:locked]"

unfoldable pub identities_for_list : List CachedSshIdentity → Bool → List CachedSshIdentity
unfolding locked_comment
identities_for_list cache locked =
    map
      (λ i. record {
        pubkey = i.pubkey;
        comment = if locked then locked_comment i.comment else i.comment;
      })
      cache

unfoldable pub list_identities : State → List CachedSshIdentity × State
unfolding identities_for_list
list_identities s =
    let locked = not (is_some_of s.keys) in
    let s1 = if locked then request_unlock s else s in
    (identities_for_list s1.ssh_identity_cache locked, s1)

abbrev public_keys : List CachedSshIdentity → List String
public_keys ids = map (λ i. i.pubkey) ids

list-keys :
    (cache : List CachedSshIdentity) (locked : Bool)
    → public_keys (identities_for_list cache locked) ≡ public_keys cache
unfolding identities_for_list
list-keys [] locked = refl
list-keys (i ∷ is) locked = ap (◌∷◌ i.pubkey) (list-keys is locked)

list-unmarked : (cache : List CachedSshIdentity) → identities_for_list cache false ≡ cache
unfolding identities_for_list
list-unmarked [] = refl
list-unmarked (i ∷ is) = ap (◌∷◌ i) (list-unmarked is)

request-cache : (s : State) → (request_unlock s).ssh_identity_cache ≡ s.ssh_identity_cache
unfolding request_unlock broadcast
request-cache s = elim (Bool-cases s.unlock_requested_notified) [
  | inl e ↦ rw e refl
  | inr e ↦ rw e refl
]

-- Locking an unlocked vault keeps the list of public keys as it is, in its order, and only marks the comments, of which
-- none was marked before; after logging out no identity is listed.
pub list-lock :
    (s : State)
    → is_some_of s.keys ≡ true
    → (public_keys (list_identities (lock s)).0 ≡ public_keys s.ssh_identity_cache)
      × ((list_identities (lock s)).0 ≡ identities_for_list s.ssh_identity_cache true)
      × (list_identities s ≡ (s.ssh_identity_cache, s))
      × ((list_identities (clear_account s)).0 ≡ [])
unfolding list_identities lock clear_account
list-lock s u = (
  rw (request-cache (lock s)) (list-keys s.ssh_identity_cache true),
  rw (request-cache (lock s)) refl,
  rw (u, list-unmarked s.ssh_identity_cache) refl,
  rw (request-cache (clear_account s)) refl,
)
