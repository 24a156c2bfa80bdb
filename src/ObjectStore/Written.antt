-- ===== src/ObjectStore/Written.antt =====
-- What `multipart_write` leaves in the store, and a multipart read of it.
use subfile_data_service.Rust.Result.{Result}
use subfile_data_service.ObjectStore.Store.{Store}
