-- ===== src/Ldk.antt =====
-- What the server takes from the crates `lightning` and `bitcoin`, which are not in the repository:
-- message types, of which the fields that the server reads, and the traits `Writeable` and
-- `Readable`. All of it is a parameter of the model.
mod Messages
mod Traits
pub use Messages.*
pub use Traits.*
