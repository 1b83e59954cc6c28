-- ===== src/Sync/Answers.antt =====
-- The errors and the headers that the downloads of cluster/sync/ give back.
use goquarkchain.Prelude.{
  ℕ, ◌≤◌, ◌≡◌, ◌≢◌, refl, ap, ◌∙◌, subst, Bool, true, false, Option, none, some, List, length, ◌==◌,
  if◌then◌else◌, Result, ok, err, ◌>>=◌, ◌>>◌, fail_if, fail_if-ok, >>=-eq-ok, arith,
}
use goquarkchain.Sync.Types.{SyncError, out_of_fuel, lower_td, empty_list, wrong_count, Header}
use goquarkchain.Sync.Ancestor.{
  RootPeer, MinorPeer, answer, root_check, root_download, root_ask, minor_download, minor_ask,
}

err_injective :
    {B : Type 0} {y z : SyncError} → ◌≡◌ {A = Result SyncError B} (err y) (err z) → y ≡ z
err_injective p = cc

pub no_fuel_error :
    {A : Type 0} (b : Bool) (x : SyncError) (m : Result SyncError A)
    → x ≢ out_of_fuel
    → m ≢ err out_of_fuel
    → (if b then err x else m) ≢ err out_of_fuel
no_fuel_error true x m h h' e = h (err_injective e)
no_fuel_error false x m h h' e = h' e

pub ne_out :
    {A B : Type 0} (r : Result SyncError A) (next : A → Result SyncError B)
    → r ≢ err out_of_fuel
    → ((a : A) → r ≡ ok a → next a ≢ err out_of_fuel)
    → (r >>= next) ≢ err out_of_fuel
ne_out (ok a) next h h' = h' a refl
ne_out (err x) next h h' = λ e. h (ap err (err_injective e))

ne_out_fail_if :
    {A : Type 0} (b : Bool) (x : SyncError) (m : Result SyncError A)
    → x ≢ out_of_fuel
    → m ≢ err out_of_fuel
    → (fail_if b x >> m) ≢ err out_of_fuel
ne_out_fail_if true x m h h' = λ e. h (err_injective e)
ne_out_fail_if false x m h h' = h'

ok-ne-out : {A : Type 0} (a : A) → ◌≢◌ {A = Result SyncError A} (ok a) (err out_of_fuel)
ok-ne-out a e = cc

ne_out_answer : {A : Type 0} (o : Option A) → answer o ≢ err out_of_fuel
ne_out_answer none = λ e. cc
ne_out_answer (some a) = λ e. cc

some_of : (n : ℕ) → (n == 0) ≡ false → 1 ≤ n
some_of n h = ground arith

-- The downloads give headers, or an error of their own.
pub record Answers (ask : ℕ → Header → ℕ → ℕ → Result SyncError (List Header × Header))
    : Type 0 where
  pub own_error : (n : ℕ) (t : Header) (s e : ℕ) → ask n t s e ≢ err out_of_fuel
  pub headers :
      (n : ℕ) (t : Header) (s e : ℕ) (rhs : List Header) (t' : Header)
      → ask n t s e ≡ ok (rhs, t')
      → 1 ≤ length rhs

abbrev accepted : List Header → Header → Result SyncError (List Header × Header)
accepted headers t = ok (headers, t)

counted :
    (headers : List Header) (b : Bool) (t t' : Header) (rhs : List Header)
    → (fail_if (length headers == 0) empty_list >> (fail_if b wrong_count >> accepted headers t))
      ≡ ok (rhs, t')
    → 1 ≤ length rhs
counted headers b t t' rhs e =
    let (positive, e₁) =
      fail_if-ok (length headers == 0) empty_list (fail_if b wrong_count >> accepted headers t) e in
    let (_, e₂) = fail_if-ok b wrong_count (accepted headers t) e₁ in
    let same : headers ≡ rhs = cc in
    subst (λ l. 1 ≤ length l) same (some_of (length headers) positive)

root_check-ne-out :
    (target : Header) (start skip limit : ℕ) (tip : Header) (headers : List Header)
    → root_check target start skip limit tip headers ≢ err out_of_fuel
unfolding root_check
root_check-ne-out target start skip limit tip headers =
    ne_out_fail_if _ lower_td _ (λ e. cc)
      (ne_out_fail_if _ empty_list _ (λ e. cc)
        (ne_out_fail_if _ wrong_count _ (λ e. cc) (ok-ne-out _)))

root_check_headers :
    (target : Header) (start skip limit : ℕ) (tip : Header) (headers rhs : List Header)
    (t' : Header)
    → root_check target start skip limit tip headers ≡ ok (rhs, t')
    → 1 ≤ length rhs
unfolding root_check
root_check_headers target start skip limit tip headers rhs t' e =
    let (_, e₁) = fail_if-ok _ lower_td _ e in counted headers _ _ t' rhs e₁

-- The headers of an answer that is accepted are the peer's.
kept :
    (headers : List Header) (b c : Bool) (t t' : Header) (rhs : List Header)
    → (fail_if b empty_list >> (fail_if c wrong_count >> accepted headers t)) ≡ ok (rhs, t')
    → headers ≡ rhs
kept headers false false t t' rhs e = cc
kept headers true c t t' rhs e = cc
kept headers false true t t' rhs e = cc

answered : {A : Type 0} {a : A} (o : Option A) → answer o ≡ ok a → o ≡ some a
answered none h = cc
answered {a} (some b) h = let same : b ≡ a = cc in ap some same

-- What a root task downloads, the peer has answered.
pub root_ask_answer :
    (peer : RootPeer) (n : ℕ) (t : Header) (s e : ℕ) (rhs : List Header) (t' : Header)
    → root_ask peer n t s e ≡ ok (rhs, t')
    → (skip : ℕ) × (limit : ℕ) × (tip : Header) × (peer n s skip limit ≡ some (tip, rhs))
unfolding root_ask root_download root_check
root_ask_answer peer n t s e rhs t' eq =
    let ((tip, hs), got, eq₁) = >>=-eq-ok (answer (peer n s _ _)) _ eq in
    let (_, eq₂) = fail_if-ok _ lower_td _ eq₁ in
    let same : hs ≡ rhs = kept hs _ _ _ t' rhs eq₂ in
    (_, _, tip, answered (peer n s _ _) got ∙ ap (λ l. some (tip, l)) same)

-- And so for a minor task.
pub minor_ask_answer :
    (peer : MinorPeer) (n : ℕ) (t : Header) (s e : ℕ) (rhs : List Header) (t' : Header)
    → minor_ask peer n t s e ≡ ok (rhs, t')
    → (skip : ℕ) × (limit : ℕ) × (peer n s skip limit ≡ some rhs)
unfolding minor_ask minor_download
minor_ask_answer peer n t s e rhs t' eq =
    let (hs, got, eq₁) = >>=-eq-ok (answer (peer n s _ _)) _ eq in
    let same : hs ≡ rhs = kept hs _ _ _ t' rhs eq₁ in
    (_, _, answered (peer n s _ _) got ∙ ap some same)

pub root_ask-Answers : (peer : RootPeer) → Answers (root_ask peer)
unfolding root_ask root_download
root_ask-Answers peer = record {
  own_error = λ n t s e.
      ne_out (answer (peer n s _ _)) _ (ne_out_answer (peer n s _ _))
        (λ (tip, hs) _. root_check-ne-out t s _ _ tip hs);
  headers = λ n t s e rhs t' eq.
      let ((tip, hs), _, eq') = >>=-eq-ok (answer (peer n s _ _)) _ eq in
      root_check_headers t s _ _ tip hs rhs t' eq';
}

pub minor_ask-Answers : (peer : MinorPeer) → Answers (minor_ask peer)
unfolding minor_ask minor_download
minor_ask-Answers peer = record {
  own_error = λ n t s e. ne_out (answer (peer n s _ _)) _ (ne_out_answer (peer n s _ _)) (λ hs _.
      ne_out_fail_if _ empty_list _ (λ e. cc)
        (ne_out_fail_if _ wrong_count _ (λ e. cc) (ok-ne-out _)));
  headers = λ n t s e rhs t' eq.
      let (hs, _, e₀) = >>=-eq-ok (answer (peer n s _ _)) _ eq in counted hs _ _ t' rhs e₀;
}
