-- ===== src/Inflate/Fuel.antt =====
-- The fuel only bounds the work: once it suffices, more of it changes nothing.
use rami_ledger.Prelude.{
  ℕ, zero, suc, ◌+◌, ◌%◌, ◌≡◌, ◌≢◌, refl, sym, ◌∙◌, ap, ◌⊎◌, inl, inr, Bool, true, false, List, [],
  arith, ◌==◌, if◌then◌else◌, get_or,
}
use rami_ledger.Result.{Result, ok, thrown, unfinished, ◌>>=◌, unknown_method}
use rami_ledger.Inflate.Reader.{Reader, bit, bits}
use rami_ledger.Inflate.Tree.{Tree}
use rami_ledger.Inflate.Codes.{copy_round, Action, end_block, literal, copying, act, codes}
use rami_ledger.Inflate.Blocks.{dynamic_trees, fixed_lit, fixed_dist, block, blocks, inflate}

-- The second result is the first, unless that one is unfinished.
abbrev Extends {ℓ} : {A : Type ℓ} → Result A → Result A → Type ℓ
Extends x y = (x ≡ unfinished) ⊎ (y ≡ x)

bind-Extends :
    {A B : Type 0} (x y : Result A) (f g : A → Result B)
    → Extends x y
    → ((a : A) → Extends (f a) (g a))
    → Extends (x >>= f) (y >>= g)
bind-Extends x y f g (inl e) h = inl (ap (λ z. z >>= f) e)
bind-Extends (ok a) y f g (inr e) h = elim (h a) [
  | inl u ↦ inl u
  | inr v ↦ inr (ap (λ z. z >>= g) e ∙ v)
]
bind-Extends (thrown x) y f g (inr e) h = inr (ap (λ z. z >>= g) e)
bind-Extends unfinished y f g (inr e) h = inl refl

act-Extends :
    (src : List ℕ) (dist : Tree) (f g : List ℕ → Reader → Result (List ℕ × Reader)) (out : List ℕ)
    (r : Reader) (a : Action)
    → ((o : List ℕ) (q : Reader) → Extends (f o q) (g o q))
    → Extends (act src dist f out r a) (act src dist g out r a)
unfolding act
act-Extends src dist f g out r end_block h = inr refl
act-Extends src dist f g out r (literal b) h = h _ r
act-Extends src dist f g out r (copying i) h =
    bind-Extends (copy_round src dist i out r).0 (copy_round src dist i out r).0 _ _ (inr refl)
      (λ o. h o (copy_round src dist i out r).1)

codes-Extends :
    (fuel : ℕ) (src : List ℕ) (lit dist : Tree) (out : List ℕ) (r : Reader)
    → Extends (codes fuel src lit dist out r) (codes (suc fuel) src lit dist out r)
unfolding codes
codes-Extends zero src lit dist out r = inl refl
codes-Extends (suc fuel) src lit dist out r =
    act-Extends src dist _ _ out _ _ (λ o q. codes-Extends fuel src lit dist o q)

block-Extends :
    (fuel : ℕ) (src : List ℕ) (type : ℕ) (out : List ℕ) (r : Reader)
    → Extends (block fuel src type out r) (block (suc fuel) src type out r)
unfolding block
block-Extends fuel src zero out r = inr refl
block-Extends fuel src (suc zero) out r = codes-Extends fuel src fixed_lit fixed_dist out r
block-Extends fuel src (suc (suc zero)) out r =
    codes-Extends fuel src (dynamic_trees src r).lit (dynamic_trees src r).dist out
      (dynamic_trees src r).r
block-Extends fuel src (suc (suc (suc type))) out r = inr refl

next-Extends :
    (f g : List ℕ × Reader → Result (List ℕ)) (final : ℕ) (s : List ℕ × Reader)
    → Extends (f s) (g s)
    → Extends {A = List ℕ}
        (elim final [ zero ↦ f s | suc _ ↦ ok s.0 ])
        (elim final [ zero ↦ g s | suc _ ↦ ok s.0 ])
next-Extends f g zero s h = h
next-Extends f g (suc n) s h = inr refl

blocks-Extends :
    (fuel : ℕ) (src out : List ℕ) (r : Reader)
    → Extends (blocks fuel src out r) (blocks (suc fuel) src out r)
unfolding blocks
blocks-Extends zero src out r = inl refl
blocks-Extends (suc fuel) src out r =
    bind-Extends (block fuel src _ out _) (block (suc fuel) src _ out _) _ _
      (block-Extends fuel src (bits src 2 (bit src r).1).0 out (bits src 2 (bit src r).1).1)
      (λ s.
        next-Extends (λ t. blocks fuel src t.0 t.1) (λ t. blocks (suc fuel) src t.0 t.1)
          (bit src r).0 s (blocks-Extends fuel src s.0 s.1))

if_Extends :
    {A : Type 0} (b : Bool) (x y z : Result A)
    → Extends x y
    → Extends (if b then x else z) (if b then y else z)
if_Extends true x y z h = h
if_Extends false x y z h = inr refl

inflate-Extends : (fuel : ℕ) (src : List ℕ) → Extends (inflate fuel src) (inflate (suc fuel) src)
unfolding inflate
inflate-Extends fuel src = if_Extends (get_or src 0 0 % 16 == 8) _ _ (thrown unknown_method) (
    bind-Extends (blocks fuel src [] _) (blocks (suc fuel) src [] _) _ _
      (blocks-Extends fuel src [] _) (λ b. inr refl))

-- A result of `inflate` that is not for lack of fuel (a decompressed text or an error) is its result
-- with any greater fuel.
pub inflate_fuel :
    (fuel more : ℕ) (src : List ℕ)
    → inflate fuel src ≢ unfinished
    → inflate (fuel + more) src ≡ inflate fuel src
inflate_fuel fuel zero src h = ap (λ k. inflate k src) (omega arith)
inflate_fuel fuel (suc more) src h =
    let ih = inflate_fuel fuel more src h in
    ap (λ k. inflate k src) {y = suc (fuel + more)} (omega arith)
    ∙ elim (inflate-Extends (fuel + more) src) [ inl u ↦ absurd (h (sym ih ∙ u)) | inr e ↦ e ∙ ih ]
