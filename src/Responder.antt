-- ===== src/Responder.antt =====
-- internal/responder/responder.go: the split-horizon resolver that answers the DNS queries of VPC
-- pods. The DNS library is the record `Dns`, the cluster's state is the record `State`.
pub mod Message
pub mod Query
pub mod Answer
pub mod Authoritative
pub mod Examples
