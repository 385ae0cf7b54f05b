-- ===== src/Net/Address.antt =====
-- webserver/InetAddress.cpp. The conversions of the system are parameters.
use high_performance_chatser.Prelude.{ℕ, Bytes, codes, ◌++◌}

-- `inet_addr`, `inet_ntop`, `htons` and `ntohs`.
pub record Inet : Type 0 where
  pub inet_addr : Bytes → ℕ
  pub inet_ntop : ℕ → Bytes
  pub htons : ℕ → ℕ
  pub ntohs : ℕ → ℕ

-- `sockaddr_in`
pub record InetAddress : Type 0 where
  pub sin_addr : ℕ
  pub sin_port : ℕ

module _ (I : Inet) where
  unfoldable pub new_address : ℕ → Bytes → InetAddress
  new_address port ip = record { sin_addr = I.inet_addr ip; sin_port = I.htons port }

  unfoldable pub to_ip : InetAddress → Bytes
  to_ip a = I.inet_ntop a.sin_addr

  -- The format is ":u", which prints the letter and no number.
  unfoldable pub to_ip_port : InetAddress → Bytes
  to_ip_port a = I.inet_ntop a.sin_addr ++ codes ":u"

  unfoldable pub to_port : InetAddress → ℕ
  to_port a = I.ntohs a.sin_port
