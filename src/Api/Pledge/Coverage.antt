-- ===== src/Api/Pledge/Coverage.antt =====
-- The sum of the pledges that `maybeProposeMatch` of internal/api/cobuying.go forms.
use yaadegar.Base.{◌≡◌, sym, ◌∙◌, List, [], ◌∷◌, arith}
use yaadegar.Base.Int64.{max_int64, add64_exact}
use yaadegar.Base.Int.{ℤ, pos, ◌≤ℤ◌, ◌+ℤ◌, +ℤ_parts, eq_of_parts, +ℤ_assoc}
use yaadegar.Base.Table.{All}
use yaadegar.Storage.{Contribution}
use yaadegar.Sqlstore.Db.{sum}
use yaadegar.Sqlstore.Contributions.{pledges}
use yaadegar.Api.Pledge.{covered}

abbrev pub NotNegative : List Contribution → Type 0
NotNegative = All (λ c. pos 0 ≤ℤ c.pledged.amount_minor)

sum-NotNegative : (cs : List Contribution) → NotNegative cs → pos 0 ≤ℤ sum (pledges cs)
sum-NotNegative [] h = omega arith
sum-NotNegative (c ∷ cs) (p, h) =
    omega (arith, p, sum-NotNegative cs h, +ℤ_parts c.pledged.amount_minor (sum (pledges cs)))

-- The sum that the loop forms is exact where the pledges are not negative and add up to an int64.
pub covered-exact :
    (acc : ℤ) (cs : List Contribution)
    → NotNegative cs
    → pos 0 ≤ℤ acc
    → acc +ℤ sum (pledges cs) ≤ℤ max_int64
    → covered acc cs ≡ acc +ℤ sum (pledges cs)
unfolding covered
covered-exact acc [] h h0 le = eq_of_parts acc (acc +ℤ pos 0) (omega (arith, +ℤ_parts acc (pos 0)))
covered-exact acc (c ∷ cs) (p, h) h0 le =
    let a = c.pledged.amount_minor in
    let t = sum (pledges cs) in
    let t0 = sum-NotNegative cs h in
    let le' = rw (sym (+ℤ_assoc acc a t)) at le in
    let exact = add64_exact acc a (omega (arith, le', t0, +ℤ_parts acc a, +ℤ_parts (acc +ℤ a) t)) in
    rw exact (covered-exact (acc +ℤ a) cs h (omega (arith, +ℤ_parts acc a)) le' ∙ +ℤ_assoc acc a t)
