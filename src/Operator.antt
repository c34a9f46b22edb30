-- ===== src/Operator.antt =====
-- The GitChangeOperator controller, which installs the operator's own resources:
-- controllers/gitchangeoperator_controller.go.
pub mod Cluster
pub mod Objects
pub mod Exposure
pub mod Reconcile
