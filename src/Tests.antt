-- ===== src/Tests.antt =====
-- The theorems at concrete inputs, and tests.
mod Fixtures
mod RoomTests
mod GatewayTests
mod RaceFixtures
mod RaceTests
mod HandlerTests
mod RoomsTests
mod ConsumerTests
mod RoutingTests
mod LocatorTests
mod AuthTests
mod LeaderboardTests
mod KafkaTests
mod RelayTests
mod HttpTests
