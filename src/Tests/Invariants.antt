-- ===== src/Tests/Invariants.antt =====
-- The invariants of the world server, once it has let a client in.
use azerust.Prelude.{ℕ, ◌≡◌, some, bytes_eq}
use azerust.MysqlCharacters.{service}
use azerust.WorldServer.Steps.Invariant.{sessions_have_accounts}
use azerust.WorldServer.Steps.Queue.{IsInPlace, packets_have_sessions}
use azerust.WorldServer.Clients.Joined.{IsServed}
use azerust.Tests.Instances.{crypto, bincode}
use azerust.Tests.Headers.{ciphers}
use azerust.Tests.World.{zlib}
use azerust.Tests.Visit.{accounts, seed, run2, guest, guest_found, reached}

sessions_have_accounts_example :
    (guest.client_id ≡ 7) × (guest.client.id ≡ 7) × (a : ℕ) × (guest.client.account ≡ some a)
sessions_have_accounts_example =
    sessions_have_accounts crypto ciphers bincode zlib accounts (service bytes_eq) 1 seed run2 7
      guest reached guest_found

packets_have_sessions_example :
    IsServed ciphers run2.server.world.receiver run2.server.world.sessions
    × IsInPlace crypto ciphers bincode zlib accounts
        (service bytes_eq)
        1
        seed
        run2.server
        run2.phase
packets_have_sessions_example =
    packets_have_sessions crypto ciphers bincode zlib accounts (service bytes_eq) 1 seed run2
      reached
