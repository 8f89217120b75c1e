-- ===== src/Lib.antt =====
-- Verification library of patch-seq, the Seq language: a concatenative language whose compiler
-- infers stack effects and emits calls of a Rust runtime. Every program runs on a stack of 8-byte
-- words; the compiler accepts it by unifying row-polymorphic stack types.
--
-- Which module models which code:
--   Word        the tagged encoding of crates/core/src/tagged_stack.rs: `tag_int`, `untag_int`,
--               `is_tagged_int`, and the 63-bit range of Int. An `i64` is the `u64` with its bits.
--   Value       `Value` and `MapKey` of crates/core/src/value.rs.
--   Machine     the state of the runtime: the slots of the stack, the counted boxes, the stack base
--               of the strand and the pending error. Machine/Arc holds the conversions of
--               crates/core/src/stack.rs between words and values; Machine/Owns says when the
--               counts are exact.
--   Stack       the operations of crates/core/src/stack.rs: `push`, `pop`, `peek`, `patch_seq_dup`
--               to `patch_seq_roll`. A pointer is a slot number and an operation a function of the
--               machine that succeeds, panics, meets a missing box or runs out of memory.
--               Stack/Represents gives the abstract view, a list of values with the top first.
--   Variant     the operations of crates/runtime/src/variant_ops/ and crates/runtime/src/list_ops/ on
--               variants, which lists are too, that do not write to one.
--   TaggedStack the growable buffer of crates/core/src/tagged_stack.rs, its growth, clone and drop.
--   Strands     `register` and `unregister` of crates/runtime/src/scheduler/registry.rs as steps of
--               threads that run at the same time, one for each atomic access.
--   Arithmetic  the operations of crates/runtime/src/arithmetic/, which pop their operands from that
--               stack and push their result on it.
--   Types       the types of crates/compiler/src/types.rs.
--   Unify       crates/compiler/src/unification.rs: `Subst`, `unify_types`, `unify_stacks`.
--   Ast         the statements of crates/compiler/src/ast/types.rs; Ast/Lower the pass of
--               crates/compiler/src/normalize.rs, Ast/Calls the edges of
--               crates/compiler/src/call_graph.rs.
--   Captures    crates/compiler/src/capture_analysis.rs.
--   LiteralIndex  how the type checker types `pick` and `roll` with a literal index
--               (crates/compiler/src/typechecker/), next to what Stack does.
--   Freshen     how the type checker renames the variables of an effect (typechecker/freshen.rs).
--   ResourceLint  the abstract stacks of the resource lint (resource_lint/state.rs).
--   Specialize  which words are compiled to registers (codegen/specialization/eligibility.rs).
--   ApplyEffect  how it applies the effect of a word and pops a type, by the unifier.
--   History     the history store of the line editor, crates/vim-line/src/history.rs.
--   Motions     the cursor motions of crates/vim-line/src/vim/motions.rs, over the bytes of a text.
--   Vim         the line editor of crates/vim-line: its modes as handlers of keys (vim.rs, vim/edits.rs,
--               vim/command_line.rs), over Motions, and the host that applies the edits
--               (crates/repl/src/app.rs).
--   Base        what the modules share: Booleans, lists and integers.
-- The Tests modules hold the theorems at concrete inputs.
--
-- Fuel: `unify_stacks` and `unify_types` recur on types they have substituted in, so they take a
-- number of rounds. For stack types without quotations and closures a number above the height of
-- the first is enough. The loops over a text run on the number of bytes that are left.
--
-- Parameters: the allocators behind `Arc::new` and of stack buffers, which may find no memory; the
-- names of fresh type variables; the order in which a map is gone through; Rust's lower-casing and
-- substring search in the history.
--
-- Not modelled: variant.append, list.push and list.set, which write to the fields of a variant when
-- its own `Arc` has one owner, since `Value` does not show which values share their fields; the
-- parser, most of the type checker, of the lints and of code generation in crates/compiler; the
-- scheduler but for its registry, channels, weaves, maps, text and input or output of
-- crates/runtime, which rest on third-party crates; crates/lsp and crates/repl, which are user
-- interfaces, but for the edits of a key; error messages, kept as their kinds.
pub mod Base
pub mod Word
pub mod Value
pub mod Machine
pub mod Stack
pub mod Variant
pub mod TaggedStack
pub mod Strands
pub mod Types
pub mod Unify
pub mod Freshen
pub mod ResourceLint
pub mod Specialize
pub mod Captures
pub mod LiteralIndex
pub mod ApplyEffect
pub mod Ast
pub mod History
pub mod Motions
pub mod Vim
pub mod Arithmetic
