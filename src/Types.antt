-- ===== src/Types.antt =====
-- mek/pkg/types/types.go. The records of the intermediate representation, the execution graph and
-- the node states. A string-typed enumeration whose values the kernel tests is a data type; a nil
-- pointer, slice or map that the code tells from an empty one is `none`.
pub mod Status
pub mod StatusMap
pub mod Rir
pub mod Graph
pub use Status.{
  NodeStatus, blocked, ready, running, success, failure, skipped, terminated, other, is_terminal,
  status_eq,
}
pub use StatusMap.{Value, text, number, flag, NodeState, ExecutionResult}
