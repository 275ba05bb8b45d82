-- ===== src/Firewall.antt =====
-- The programs over rte_acl: ACL_DPDK/main.c, which classifies one packet, and ACL_DPDK_2/main.c, a firewall.
-- The ACL library is not part of the repository.
pub mod Rules
pub mod Match
pub mod Loop
pub mod Program
pub mod Classifier
mod Tests
