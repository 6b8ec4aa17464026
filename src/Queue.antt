-- ===== src/Queue.antt =====
-- center/server/mq.go and runner.go: the connection to RabbitMQ, and the consumers of the queue.
pub mod Connect
pub mod ConnectLaws
pub mod Runner
pub mod RunnerLaws
