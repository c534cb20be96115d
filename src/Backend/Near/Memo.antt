-- ===== src/Backend/Near/Memo.antt =====
-- The ciphertext of a withdrawal by `extract_ciphertext_from_memo` of src/backend/near.rs.
use zeropool_relayer_rs.Prelude.{
  ℕ, zero, suc, ◌+◌, ◌-◌, ◌≤◌, ◌≡◌, refl, ap, ◌∙◌, false, true, List, [], ◌∷◌, ◌++◌, length, take,
  drop, ltb, leb, length-append, arith,
}
use zeropool_relayer_rs.Exec.{ok}
use zeropool_relayer_rs.Tx.{withdraw}
use zeropool_relayer_rs.Backend.{memo_from}
use zeropool_relayer_rs.Backend.Near.{u32_from_le_bytes, near_ciphertext}
use zeropool_relayer_rs.Backend.Near.Pages.{drop-add}

module _ {ℓ} {A : Type ℓ} where
  drop-append : (m : ℕ) (xs ys : List A) → length xs ≡ m → drop m (xs ++ ys) ≡ ys
  drop-append zero [] ys h = refl
  drop-append zero (x ∷ xs) ys h = absurd (omega (arith, h))
  drop-append (suc m) [] ys h = absurd (omega (arith, h))
  drop-append (suc m) (x ∷ xs) ys h = drop-append m xs ys (omega (arith, h))

  take-append : (m : ℕ) (xs ys : List A) → length xs ≡ m → take m (xs ++ ys) ≡ xs
  take-append zero [] ys h = refl
  take-append zero (x ∷ xs) ys h = absurd (omega (arith, h))
  take-append (suc m) [] ys h = absurd (omega (arith, h))
  take-append (suc m) (x ∷ xs) ys h = ap (λ l. x ∷ l) (take-append m xs ys (omega (arith, h)))

  drop-append_within :
      (m : ℕ) (xs ys : List A) → m ≤ length xs → drop m (xs ++ ys) ≡ drop m xs ++ ys
  drop-append_within zero xs ys h = refl
  drop-append_within (suc m) [] ys h = elim h [ ]
  drop-append_within (suc m) (x ∷ xs) ys h = drop-append_within m xs ys (omega (arith, h))

memo_from_lem :
    (offset : ℕ) (memo : List ℕ)
    → offset ≤ length memo
    → memo_from offset memo ≡ ok (drop offset memo)
memo_from_lem offset memo h = let e : leb offset (length memo) ≡ true = ground arith in rw e refl

-- A memo with 20 bytes before the length of an address of at least four bytes, that length in four
-- bytes, the address, and the ciphertext: what is given begins four bytes too early.
pub near_withdrawal :
    (header size address text : List ℕ)
    → length header ≡ 20
    → length size ≡ 4
    → u32_from_le_bytes size ≡ length address
    → 4 ≤ length address
    → near_ciphertext (header ++ (size ++ (address ++ text))) withdraw
      ≡ ok (drop (length address - 4) address ++ text)
unfolding near_ciphertext
near_withdrawal header size address text h4 h20 says long =
    let body : List ℕ = size ++ (address ++ text) in
    let memo : List ℕ = header ++ body in
    let k : ℕ = length address in
    let total : length memo ≡ length header + (length size + (length address + length text)) =
      omega (
        arith,
        length-append header body,
        length-append size (address ++ text),
        length-append address text,
      ) in
    let enough : ltb (length memo) 24 ≡ false = ground (arith, total) in
    let inside : drop 20 memo ≡ body = drop-append 20 header body h4 in
    let number : u32_from_le_bytes (take 4 (drop 20 memo)) ≡ k =
      ap (λ l. u32_from_le_bytes (take 4 l)) inside
      ∙ ap u32_from_le_bytes (take-append 4 size (address ++ text) h20)
      ∙ says in
    let split : k ≡ 4 + (k - 4) = omega (arith, long) in
    rw (enough, number)
      (memo_from_lem (20 + k) memo (omega (arith, total))
        ∙ ap (λ l. ok l)
            (drop-add 20 k memo
              ∙ ap (λ l. drop k l) inside
              ∙ ap (λ j. drop j body) split
              ∙ drop-add 4 (k - 4) body
              ∙ ap (λ l. drop (k - 4) l) (drop-append 4 size (address ++ text) h20)
              ∙ drop-append_within (k - 4) address text (omega (arith, long))))
