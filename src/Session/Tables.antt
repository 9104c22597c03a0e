-- ===== src/Session/Tables.antt =====
-- Dictionaries as association lists: what pop, put and find make of a property of the values.
use kvserve.Common.{
  ℕ, suc, ◌<◌, ◌≡◌, inl, inr, subst, Bool, Bool-cases, some, List, [], ◌∷◌, All, arith,
}
use kvserve.Session.State.{SessionKey, find, pop, put}

-- Sessions in the table have been made.
abbrev pub IsMade : ℕ → SessionKey × ℕ → Type 0
IsMade n entry = entry.1 < n

pub All-pop {ℓ κ ν} :
    {K : Type ℓ} {V : Type κ} (P : K × V → Type ν) (same : K → K → Bool) (k : K) (d : List (K × V))
    → All P d
    → All P (pop same k d)
unfolding pop
All-pop P same k [] h = tt
All-pop P same k ((k', v) ∷ rest) h = elim (Bool-cases (same k' k)) [
  | inl e ↦ rw e (All-pop P same k rest h.1)
  | inr e ↦ rw e (h.0, All-pop P same k rest h.1)
]

pub All-put {ℓ κ ν} :
    {K : Type ℓ} {V : Type κ} (P : V → Type ν) (same : K → K → Bool) (k : K) (v : V)
    (d : List (K × V))
    → P v
    → All (λ e. P (e.1)) d
    → All (λ e. P (e.1)) (put same k v d)
unfolding put
All-put P same k v [] p h = (p, tt)
All-put P same k v ((k', w) ∷ rest) p h = elim (Bool-cases (same k' k)) [
  | inl e ↦ rw e (p, h.1)
  | inr e ↦ rw e (h.0, All-put P same k v rest p h.1)
]

pub All-find {ℓ κ ν} :
    {K : Type ℓ} {V : Type κ} (P : V → Type ν) (same : K → K → Bool) (k : K) (v : V)
    (d : List (K × V))
    → All (λ e. P (e.1)) d
    → find same k d ≡ some v
    → P v
unfolding find
All-find P same k v [] h e = absurd (ground arith)
All-find P same k v ((k', w) ∷ rest) h e = elim (Bool-cases (same k' k)) [
  | inl c ↦ (let q : w ≡ v = ground (arith, c, e) in subst P q h.0)
  | inr c ↦ All-find P same k v rest h.1 (rw c at e)
]

pub IsMade-suc : (n : ℕ) (d : List (SessionKey × ℕ)) → All (IsMade n) d → All (IsMade (suc n)) d
IsMade-suc n [] h = tt
IsMade-suc n ((k, i) ∷ rest) h = (omega (arith, h.0), IsMade-suc n rest h.1)
