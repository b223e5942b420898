-- ===== src/Lib.antt =====
-- A verification library of the miniscript crate: the type system of Miniscript, the sizes and limits
-- that it computes with the types, the trees that `Miniscript::from_ast` accepts, and the policies
-- that scripts stand for.
--
-- Parts, and the files of the crate that they model (paths from the repository's root):
--
--   Prelude     Boolean tests, list measures and results with an error, shared by all.
--   Primitives  src/primitives: `Threshold` (Primitives/Threshold.antt) with its maximum as an
--               argument, and lock times (Primitives/Locktime.antt).
--   Types       src/miniscript/types: the correctness rules of correctness.rs (Types/Correctness.antt
--               and its child modules Wrappers and Combinators), the malleability rules of
--               malleability.rs (Types/Malleability.antt), and `Type` of mod.rs, which pairs them
--               (Types/Fragment.antt). Types/Sanity and Types/Subtype hold what each rule keeps.
--   Ext         src/miniscript/types/extra_props.rs: `TimelockInfo`, `SatData`, `ExtData` and its
--               rule for each fragment.
--   Miniscript  src/miniscript: `Terminal` of decode.rs and `Miniscript` of mod.rs
--               (Miniscript/Ast.antt), the two `type_check` functions (Miniscript/Check.antt), the
--               script contexts of context.rs (Miniscript/Context.antt), `from_ast` and
--               `script_size` of mod.rs (Miniscript/Build.antt, Miniscript/Build/Size.antt), and the
--               encoding of astelem.rs (Miniscript/Encode.antt) and the checks of
--               analyzable.rs (Miniscript/Analysis.antt).
--   Iter        src/iter: the post-order iterators of tree.rs (Iter/Tree.antt), and miniscripts as
--               trees of mod.rs (Iter/Nodes.antt).
--   Policy      src/policy/semantic.rs: abstract policies (Policy/Semantic.antt), their filters by
--               lock time (Filter), key counts (Keys) and entailment (Constraint, Entails). Then
--               src/policy/concrete.rs (Policy/Concrete.antt), and the lifting of miniscripts
--               (Policy/Lift.antt) and of concrete policies of src/policy/mod.rs, with the tests of
--               src/miniscript/analyzable.rs that it makes.
--   Descriptor  src/descriptor/checksum.rs: the checksum engine, `verify_checksum` and the formatter
--               (Descriptor/Checksum.antt), and src/descriptor/tr/taptree.rs: Taproot trees and their
--               display (Descriptor/TapTree.antt).
--   Interpreter src/interpreter: keys, constraints and errors of mod.rs and error.rs
--               (Interpreter/Keys.antt), the stack of stack.rs (Interpreter/Stack.antt), the iterator
--               over satisfied constraints of mod.rs (Interpreter/Iter.antt, its arms in
--               Interpreter/Arms.antt, its steps in Interpreter/Machine.antt), the spends of
--               inner.rs (Interpreter/Inner.antt). Interpreter/Evaluator.antt is a recursive reading
--               of the iterator.
--   Examples    concrete keys, lock times, scripts and policies, and the theorems at them.
--
-- Correspondence. A definition has the name of the Rust item. A Rust method `T::f` of the type
-- system is `f` of the module that models `T`. `?` and early returns are the binds of `Result`, and
-- `Option` is `Option`. The tree is a data type, and the children of `thresh` are a second data type
-- in its mutual block; reference counting is left out, since the trees are immutable.
-- `Miniscript::from_ast` calls both `type_check` functions on a node whose children carry their
-- annotations, tests the height, and calls `check_global_validity` of the context; `IsBuilt` says
-- that each node of a tree was made by such a call. The four contexts are values of one type instead
-- of types with a trait. A function that pops its children off a stack while it walks a tree in post
-- order is a recursion on the tree; `lift` of miniscripts is modelled with its stack.
--
-- Parameters. The bitcoin crate's lock times and limits are the record `Bitcoin` of
-- Primitives/Locktime.antt, keys and hashes are the record `MiniscriptKey`, and the length of an
-- encoded inscription envelope is a function argument. The script builder of the bitcoin crate is
-- the record `ScriptBuilder` of Miniscript/Encode.antt, and `BuilderLaws` names what is documented of
-- the lengths of what it pushes. The length of a pushed number is that of its bytes in Script, which
-- `number_bytes` counts on a fuel of eight, enough for 63 bits.
-- The finite field and the residue behind a descriptor's checksum are those of the bech32 crate, the
-- record `Bech32` of Descriptor/Checksum.antt, with what is documented of them in `Bech32Laws`.
-- What the interpreter takes of the bitcoin crate, keys, signatures, their parsers, hash functions and
-- relative lock times, is the record `Crypto` of Interpreter/Keys.antt; its signature check is a
-- function. A panic is an error of its own.
--
-- Bounds. `usize` values are natural numbers without wrap-around. The cast of the height to 32 bits
-- is written out. Recursion is structural, but for `entails` of the policies, which is on fuel: a
-- call fixes one terminal of a policy with at most 20, so that 22 units are enough. A
-- recursive call of `next` of an iterator takes a unit of fuel; each node of a tree needs two, and the end one.
-- A round of the interpreter's loop takes a unit as well, and the fuel that is enough is part of what
-- is proved of it. Its stack is a list with the top first.
--
-- Not modelled: parsing and printing, decoding from Bitcoin script, satisfaction, the
-- interpreter's reading of a transaction and its signature hashes, descriptors but for their checksum and their Taproot trees, keys, PSBT and the policy compiler; the
-- context `NoChecks`, whose size functions panic; and the texts of errors.
pub mod Prelude
pub mod Primitives
pub mod Types
pub mod Ext
pub mod Miniscript
pub mod Iter
pub mod Policy
pub mod Descriptor
pub mod Interpreter
pub mod Examples
