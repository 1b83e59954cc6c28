-- ===== src/Sync/Linked.antt =====
-- What `validateHeaderList` of cluster/sync/task.go accepts.
use goquarkchain.Prelude.{
  ◌+◌, ◌%◌, ◌^◌, ◌≡◌, ◌↔◌, refl, ◌∙◌, Bool, true, not, Option, none, some, List, [], ◌∷◌, All, ◌==◌,
  ok, fail_if-ok, skip_fail_if, same_of_not, not_of_same, true_of_not, not_of_true,
}
use goquarkchain.Sync.Types.{bad_seal, wrong_number, not_linked, Header}
use goquarkchain.Sync.Task.{validate_header_list}

-- A header follows another: the next number of a word, and its hash as the parent.
abbrev pub Follows : Header → Header → Type 0
Follows prev h = (h.number ≡ (prev.number + 1) % 2 ^ 64) × (prev.hash ≡ h.parent_hash)

-- Each header follows the one before.
abbrev pub IsLinkedAfter : Option Header → List Header → Type 0
IsLinkedAfter prev [] = Unit {0}
IsLinkedAfter none (h ∷ headers) = IsLinkedAfter (some h) headers
IsLinkedAfter (some prev) (h ∷ headers) = Follows prev h × IsLinkedAfter (some h) headers

module _ (sealed : Header → Bool) where
  accepted-IsLinkedAfter :
      (prev : Option Header) (headers : List Header)
      → validate_header_list sealed prev headers ≡ ok tt
      → All (λ h. sealed h ≡ true) headers × IsLinkedAfter prev headers
  unfolding validate_header_list
  accepted-IsLinkedAfter prev [] = λ e. (tt, tt)
  accepted-IsLinkedAfter none (h ∷ headers) = λ e.
      let (sealed_h, e₁) = fail_if-ok (not (sealed h)) bad_seal _ e in
      let (all, linked) = accepted-IsLinkedAfter (some h) headers e₁ in
      ((true_of_not _ sealed_h, all), linked)
  accepted-IsLinkedAfter (some prev) (h ∷ headers) = λ e.
      let (numbered, e₁) =
        fail_if-ok (not (h.number == (prev.number + 1) % 2 ^ 64)) wrong_number _ e in
      let (hashed, e₂) = fail_if-ok (not (prev.hash == h.parent_hash)) not_linked _ e₁ in
      let (sealed_h, e₃) = fail_if-ok (not (sealed h)) bad_seal _ e₂ in
      let (all, linked) = accepted-IsLinkedAfter (some h) headers e₃ in
      ((true_of_not _ sealed_h, all), ((same_of_not _ _ numbered, same_of_not _ _ hashed), linked))

  linked_accepted :
      (prev : Option Header) (headers : List Header)
      → All (λ h. sealed h ≡ true) headers
      → IsLinkedAfter prev headers
      → validate_header_list sealed prev headers ≡ ok tt
  unfolding validate_header_list
  linked_accepted prev [] = λ all linked. refl
  linked_accepted none (h ∷ headers) = λ all linked.
      skip_fail_if (not (sealed h)) _ _ (not_of_true _ all.0)
      ∙ linked_accepted (some h) headers all.1 linked
  linked_accepted (some prev) (h ∷ headers) = λ all linked.
      skip_fail_if _ _ _ (not_of_same _ _ linked.0.0)
      ∙ skip_fail_if _ _ _ (not_of_same _ _ linked.0.1)
      ∙ skip_fail_if _ _ _ (not_of_true _ all.0)
      ∙ linked_accepted (some h) headers all.1 linked.1

-- `validateHeaderList` accepts exactly the lists of headers whose seals are all valid and in which
-- each header after the first has the next number and the hash of the one before as its parent.
pub validate_header_list_iff :
    (sealed : Header → Bool) (headers : List Header)
    → (validate_header_list sealed none headers ≡ ok tt)
      ↔ (All (λ h. sealed h ≡ true) headers × IsLinkedAfter none headers)
validate_header_list_iff sealed headers = (
  accepted-IsLinkedAfter sealed none headers,
  λ (all, linked). linked_accepted sealed none headers all linked,
)
