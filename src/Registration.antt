-- ===== src/Registration.antt =====
-- internal/registration: the exchange of the bootstrap token, and the delivered client secret.
pub mod Credentials
pub mod Registrar
pub mod SecretReader
