-- ===== src/Interpreter/Iter.antt =====
-- `Iter` of src/interpreter/mod.rs: a stack of nodes with how far each one is evaluated, over the
-- stack of witness elements, and the rounds of the loop of `iter_next`. The signature check is a
-- function.
use rust_miniscript.Prelude.{ℕ, Bool, Option, none, some, List, [], ◌∷◌, err}
use rust_miniscript.Primitives.Locktime.{Bitcoin}
use rust_miniscript.Ext.Leaves.{SigType}
use rust_miniscript.Miniscript.Ast.{Bytes, Terminal, Miniscript, Subs}
use rust_miniscript.Interpreter.Keys.{Crypto, BitcoinKey, KeySigPair, Error, bitcoin_key}
use rust_miniscript.Interpreter.Stack.{Element, Stack, Evaluation}

module _ {B : Bitcoin} (C : Crypto B) where
  abbrev pub Script : Type 0
  Script = Miniscript B (bitcoin_key C)

  abbrev pub Node : Type 0
  Node = Terminal B (bitcoin_key C)

  abbrev pub Scripts : Type 0
  Scripts = Subs B (bitcoin_key C)

  pub record NodeEvaluationState : Type 0 where
    pub node : Script
    pub n_evaluated : ℕ
    pub n_satisfied : ℕ

  pub record Iter : Type 0 where
    pub verify_sig : KeySigPair C → Bool
    pub public_key : Option (BitcoinKey C)
    pub state : List NodeEvaluationState
    pub stack : Stack
    pub sequence : B.Sequence
    pub lock_time : B.LockTime
    pub tx_template : Option Bytes
    pub has_errored : Bool
    pub sig_type : SigType

  -- One round of the loop: it goes on, or `iter_next` returns, or it panics.
  pub data Round : Type 0 where
    again : Iter → Round
    returns : Evaluation C → Iter → Round
    panics : Round

  abbrev pub with_stack : Iter → Stack → Iter
  with_stack it st = record it { stack = st }

  abbrev pub push_evaluation_state : Script → ℕ → ℕ → Iter → Iter
  push_evaluation_state ms n_evaluated n_satisfied it = record it {
    state = record { node = ms; n_evaluated = n_evaluated; n_satisfied = n_satisfied } ∷ it.state;
  }

  abbrev pub fails : Iter → Stack → Error C → Round
  fails it st e = returns (some (err e)) (with_stack it st)

  -- `if res.is_some() { return res; }`.
  abbrev pub evaluated : Iter → Evaluation C × Stack → Round
  evaluated it (none, st) = again (with_stack it st)
  evaluated it (some res, st) = returns (some res) (with_stack it st)

  -- The `match self.stack.pop()` whose arms are those of a Boolean.
  abbrev pub pop_boolean : Iter → (Iter → Round) → (Iter → Round) → Stack → Round
  pop_boolean it on_dissatisfied on_satisfied (Element.dissatisfied ∷ st) =
      on_dissatisfied (with_stack it st)
  pop_boolean it on_dissatisfied on_satisfied (Element.satisfied ∷ st) =
      on_satisfied (with_stack it st)
  pop_boolean it on_dissatisfied on_satisfied (Element.push _ ∷ st) =
      fails it st Error.unexpected_stack_element_push
  pop_boolean it on_dissatisfied on_satisfied [] = fails it [] Error.unexpected_stack_end

  abbrev pub push_element : Element → Iter → Iter
  push_element e it = with_stack it (e ∷ it.stack)
