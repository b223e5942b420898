-- ===== src/Interpreter/Inner.antt =====
-- `Inner` of src/interpreter/inner.rs and the `Interpreter` of src/interpreter/mod.rs, with the
-- iterator that it creates.
use rust_miniscript.Prelude.{Bool, true, false, Option, none, some, List, [], ◌∷◌}
use rust_miniscript.Primitives.Locktime.{Bitcoin}
use rust_miniscript.Ext.Leaves.{SigType}
use rust_miniscript.Miniscript.Ast.{Bytes}
use rust_miniscript.Interpreter.Keys.{Crypto, BitcoinKey, KeySigPair}
use rust_miniscript.Interpreter.Stack.{Stack}
use rust_miniscript.Interpreter.Iter.{Script, NodeEvaluationState, Iter}

pub data PubkeyType : Type 0 where
  pk pkh wpkh sh_wpkh tr : PubkeyType

pub data ScriptType : Type 0 where
  bare sh wsh sh_wsh tr : ScriptType

module _ {B : Bitcoin} (C : Crypto B) where
  pub data Inner : Type 0 where
    public_key : BitcoinKey C → PubkeyType → Inner
    script : Script C → ScriptType → Inner

  pub record Interpreter : Type 0 where
    pub inner : Inner
    pub stack : Stack
    pub script_code : Option Bytes
    pub sequence : B.Sequence
    pub lock_time : B.LockTime
    pub tx_template : Option Bytes

  unfoldable pub with_tx_template : Interpreter → Bytes → Interpreter
  with_tx_template i hash = record i { tx_template = some hash }

  unfoldable pub is_legacy : Inner → Bool
  is_legacy (Inner.public_key _ PubkeyType.pk) = true
  is_legacy (Inner.public_key _ PubkeyType.pkh) = true
  is_legacy (Inner.public_key _ PubkeyType.wpkh) = false
  is_legacy (Inner.public_key _ PubkeyType.sh_wpkh) = false
  is_legacy (Inner.public_key _ PubkeyType.tr) = false
  is_legacy (Inner.script _ ScriptType.bare) = true
  is_legacy (Inner.script _ ScriptType.sh) = true
  is_legacy (Inner.script _ ScriptType.wsh) = false
  is_legacy (Inner.script _ ScriptType.sh_wsh) = false
  is_legacy (Inner.script _ ScriptType.tr) = false

  unfoldable pub is_segwit_v0 : Inner → Bool
  is_segwit_v0 (Inner.public_key _ PubkeyType.pk) = false
  is_segwit_v0 (Inner.public_key _ PubkeyType.pkh) = false
  is_segwit_v0 (Inner.public_key _ PubkeyType.wpkh) = true
  is_segwit_v0 (Inner.public_key _ PubkeyType.sh_wpkh) = true
  is_segwit_v0 (Inner.public_key _ PubkeyType.tr) = false
  is_segwit_v0 (Inner.script _ ScriptType.bare) = false
  is_segwit_v0 (Inner.script _ ScriptType.sh) = false
  is_segwit_v0 (Inner.script _ ScriptType.wsh) = true
  is_segwit_v0 (Inner.script _ ScriptType.sh_wsh) = true
  is_segwit_v0 (Inner.script _ ScriptType.tr) = false

  unfoldable pub is_taproot_v1_key_spend : Inner → Bool
  is_taproot_v1_key_spend (Inner.public_key _ PubkeyType.tr) = true
  is_taproot_v1_key_spend (Inner.public_key _ _) = false
  is_taproot_v1_key_spend (Inner.script _ _) = false

  unfoldable pub is_taproot_v1_script_spend : Inner → Bool
  is_taproot_v1_script_spend (Inner.public_key _ _) = false
  is_taproot_v1_script_spend (Inner.script _ ScriptType.tr) = true
  is_taproot_v1_script_spend (Inner.script _ _) = false

  unfoldable pub sig_type : Inner → SigType
  sig_type (Inner.public_key _ PubkeyType.tr) = SigType.schnorr
  sig_type (Inner.script _ ScriptType.tr) = SigType.schnorr
  sig_type (Inner.public_key _ _) = SigType.ecdsa
  sig_type (Inner.script _ _) = SigType.ecdsa

  abbrev pub key_of_inner : Inner → Option (BitcoinKey C)
  key_of_inner (Inner.public_key key _) = some key
  key_of_inner (Inner.script _ _) = none

  abbrev pub state_of_inner : Inner → List (NodeEvaluationState C)
  state_of_inner (Inner.public_key _ _) = []
  state_of_inner (Inner.script ms _) = record { node = ms; n_evaluated = 0; n_satisfied = 0 } ∷ []

  unfoldable pub iter_custom : Interpreter → (KeySigPair C → Bool) → Iter C
  unfolding sig_type
  iter_custom i verify_sig = record {
    verify_sig = verify_sig;
    public_key = key_of_inner i.inner;
    state = state_of_inner i.inner;
    stack = i.stack;
    sequence = i.sequence;
    lock_time = i.lock_time;
    tx_template = i.tx_template;
    has_errored = false;
    sig_type = sig_type i.inner;
  }

  unfoldable pub iter_assume_sigs : Interpreter → Iter C
  unfolding iter_custom
  iter_assume_sigs i = iter_custom i (λ sig. true)
