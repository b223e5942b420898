-- ===== src/Examples/Scripts.antt =====
-- `and_v(v:pk(0),after(100))`, `thresh(2,pk(1),s:pk(2),s:pk(103))` and parts of them.
use rust_miniscript.Prelude.{ℕ, refl, ok, err, Result, [], ◌∷◌, arith}
use rust_miniscript.Types.Kinds.{ErrorKind}
use rust_miniscript.Types.Correctness.{Correctness}
use rust_miniscript.Types.Correctness
use rust_miniscript.Types.Fragment
use rust_miniscript.Types.Fragment.{Ty}
use rust_miniscript.Ext.Data.{script_num_size}
use rust_miniscript.Ext.Leaves
use rust_miniscript.Ext.Wrappers
use rust_miniscript.Ext.Combinators
use rust_miniscript.Ext.Threshold
use rust_miniscript.Miniscript.Ast.{MiniscriptKey, Terminal, Miniscript, miniscript, nil, cons}
use rust_miniscript.Miniscript.Check.{type_check, ext_check}
use rust_miniscript.Miniscript.Context.{Context, sig_type, check_global_validity}
use rust_miniscript.Miniscript.Build.{from_ast, IsBuilt}
use rust_miniscript.Examples.Setting.{numbers, key_numbers, envelope_size}

abbrev pub Script : Type 0
Script = Miniscript numbers key_numbers

abbrev pub Node : Type 0
Node = Terminal numbers key_numbers

abbrev type_or_false : Result ErrorKind Ty → Ty
type_or_false (ok t) = t
type_or_false (err e) = Fragment.type_false

-- The node with the annotations that `from_ast` gives it where it is well typed.
unfoldable pub annotate : {K : MiniscriptKey} → Terminal numbers K → Miniscript numbers K
unfolding type_check Fragment.and_v Fragment.cast_verify Fragment.cast_check Fragment.cast_swap
    Fragment.threshold Correctness.Combinators.and_input ext_check script_num_size Leaves.pk_k
    Leaves.after Wrappers.cast_check Wrappers.cast_verify Wrappers.cast_swap Combinators.and_v
    Threshold.threshold
annotate n =
    miniscript n (type_or_false (type_check n))
      (ext_check envelope_size (sig_type Context.legacy) n)

unfoldable pub pk : ℕ → Script
unfolding annotate
pk k = annotate (Terminal.check (annotate (Terminal.pk_k k)))

unfoldable pub timed : Script
unfolding pk
timed = annotate (
    Terminal.and_v (annotate (Terminal.verify (pk 0)))
      (annotate (Terminal.after (record { inner = 100 }))))

unfoldable pub two_of_three : Script
unfolding pk
two_of_three = annotate (
    Terminal.thresh 2 (
      cons (pk 1)
        (cons (annotate (Terminal.swap (pk 2))) (cons (annotate (Terminal.swap (pk 103))) nil))))

pub timed-IsBuilt : IsBuilt envelope_size Context.legacy timed
unfolding timed from_ast check_global_validity
timed-IsBuilt = (refl, ((refl, ((refl, (refl, tt)))), (refl, tt)))

pub two_of_three-IsBuilt : IsBuilt envelope_size Context.legacy two_of_three
unfolding two_of_three from_ast check_global_validity
two_of_three-IsBuilt = (
  refl,
  (
    omega arith,
    omega arith,
    ((refl, ((refl, tt))), ((refl, (refl, (refl, tt))), ((refl, (refl, (refl, tt))), tt))),
  ),
)

pub timed-IsBuilt_segwit : IsBuilt envelope_size Context.segwitv0 timed
unfolding timed from_ast check_global_validity
timed-IsBuilt_segwit = (refl, ((refl, ((refl, (refl, tt)))), (refl, tt)))

-- `multi(1,3)`.
unfoldable pub one_of_one : Script
unfolding annotate
one_of_one = annotate (Terminal.multi (record { k = 1; inner = 3 ∷ [] }))
