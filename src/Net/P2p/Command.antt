-- ===== src/Net/P2p/Command.antt =====
-- The command of a header: twelve bytes, padded with zeros.
use bitcoin_toolkit.Common.{
  err-ne-ok, inr, ◌∙◌, ok-injective, inl, Bool-cases, take-split, length-drop, length-take, drop,
  drop-append, ok, [], refl, take-append, ◌∷◌, zero, ◌-◌, ap, arith, true, ◌++◌, suc, ◌<◌, ◌≤◌,
  take, ◌≡◌, length, replicate, All, ℕ, Bytes,
}
use bitcoin_toolkit.Net.P2p.{command_len, only_zeros, command_from_header}

-- No byte is zero.
abbrev pub IsName : Bytes → Type 0
IsName = All (λ b. 0 < b)

abbrev zeros : ℕ → Bytes
zeros n = replicate n 0

pub length-replicate : (n b : ℕ) → length (replicate n b) ≡ n
length-replicate zero b = refl
length-replicate (suc n) b = ap suc (length-replicate n b)

-- The scan stops behind the name.
command_len-padded :
    (k : ℕ) (c rest : Bytes)
    → IsName c
    → length c ≤ k
    → command_len k (c ++ (zeros (k - length c) ++ rest)) ≡ length c
unfolding command_len
command_len-padded zero [] rest h le = refl
command_len-padded zero (b ∷ c) rest h le = absurd (omega arith)
command_len-padded (suc k) [] rest h le =
    ap (λ (n : ℕ). command_len (suc k) (zeros n ++ rest)) {x = suc k - 0} {y = suc k} (omega arith)
command_len-padded (suc k) (b ∷ c) rest (pos, h) le =
    ground (arith, command_len-padded k c rest h (omega arith))

only_zeros-replicate : (n : ℕ) → only_zeros (zeros n) ≡ true
unfolding only_zeros
only_zeros-replicate zero = refl
only_zeros-replicate (suc n) = only_zeros-replicate n

only_zeros→eq : (bs : Bytes) → only_zeros bs ≡ true → bs ≡ zeros (length bs)
unfolding only_zeros
only_zeros→eq [] h = refl
only_zeros→eq (b ∷ bs) h = ground (arith, only_zeros→eq bs)

take-replicate : (n : ℕ) (rest : Bytes) → take n (zeros n ++ rest) ≡ zeros n
take-replicate n rest = rw length-replicate at (take-append (zeros n) rest)

-- `command_from_header` at a padded name of at most 12 bytes, none zero, returns the name.
pub command_from_header-padded :
    (c rest : Bytes)
    → IsName c
    → length c ≤ 12
    → command_from_header (c ++ (zeros (12 - length c) ++ rest)) ≡ ok c
unfolding command_from_header
command_from_header-padded c rest h le =
    rw
      (
        command_len-padded 12 c rest h le,
        drop-append c (zeros (12 - length c) ++ rest),
        take-replicate (12 - length c) rest,
        only_zeros-replicate (12 - length c),
        take-append c (zeros (12 - length c) ++ rest),
      )
      refl

command_len_le : (k : ℕ) (bs : Bytes) → command_len k bs ≤ k
unfolding command_len
command_len_le zero bs = omega arith
command_len_le (suc k) [] = omega arith
command_len_le (suc k) (b ∷ bs) = ground (arith, command_len_le k bs)

command_len-IsName : (k : ℕ) (bs : Bytes) → IsName (take (command_len k bs) bs)
unfolding command_len
command_len-IsName zero bs = tt
command_len-IsName (suc k) [] = tt
command_len-IsName (suc k) (b ∷ bs) = ground (arith, command_len-IsName k bs)

-- What `command_from_header` accepts is the padded form of what it returns.
pub command_from_header-canonical :
    (cmd c : Bytes)
    → 12 ≤ length cmd
    → command_from_header cmd ≡ ok c
    → IsName c × (length c ≤ 12) × (take 12 cmd ≡ c ++ zeros (12 - length c))
unfolding command_from_header
command_from_header-canonical cmd c h e =
    let n = command_len 12 cmd in
    let pad = take (12 - n) (drop n cmd) in
    let size : length pad ≡ 12 - n =
      length-take (12 - n) (drop n cmd)
        (omega (arith, length-drop {0} n cmd, command_len_le 12 cmd)) in
    let parts : take 12 cmd ≡ take n cmd ++ pad =
      take-split n (12 - n) 12 cmd (omega (arith, command_len_le 12 cmd)) in
    let name_size : length (take n cmd) ≡ n =
      length-take n cmd (omega (arith, command_len_le 12 cmd)) in
    elim (Bool-cases (only_zeros pad)) [
      | inl z ↦
          let e' : take n cmd ≡ c = ok-injective (rw z at e) in
          rw (← e') (
            command_len-IsName 12 cmd,
            omega (arith, name_size, command_len_le 12 cmd),
            rw (name_size)
                (parts ∙ ap (λ (t : Bytes). take n cmd ++ t) (rw size at (only_zeros→eq pad z))),
          )
      | inr z ↦ absurd (err-ne-ok (rw z at e))
    ]
