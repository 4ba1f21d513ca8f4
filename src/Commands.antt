-- ===== src/Commands.antt =====
-- The durable command core (src/ephi/application/context.py, storage.py, transactions.py) over the tables
-- of src/ephi/infrastructure/sqlite.py.
pub mod Context
pub mod Store
pub mod Command
pub mod Writes
pub mod Executor
pub mod Laws
pub mod History
pub mod Again
pub mod Tests
