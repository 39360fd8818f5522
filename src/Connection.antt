-- ===== src/Connection.antt =====
-- components/database/providers/postgresql/config: ConnectionCredentials, ConnectionConfig with its
-- Builder, and the text that libpq is given.
pub mod Credentials
pub mod Config
pub mod Builder
pub mod Valid
pub mod Reader
pub mod Legible
pub mod Parameters
pub mod Written
pub mod Keys
pub mod Illegible
pub mod RoundTrip
mod Tests
