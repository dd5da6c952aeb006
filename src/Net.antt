-- ===== src/Net.antt =====
-- The networking layer, src/net.
pub mod Buffer
pub mod InetAddress
pub mod Timestamp
pub mod Timer
pub mod TimerQueue
pub mod Channel
pub mod EventLoop
pub mod Acceptor
pub mod TcpConnection
pub mod EventLoopThread
pub mod ThreadPool
pub mod Server
