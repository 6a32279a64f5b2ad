-- ===== src/Client.antt =====
-- src/client/ovnc_client.c: the public client API. The functions are given a client that is not
-- NULL; with NULL they return OVNC_ERR_INVALID_ARG (or NULL, or 0) and touch nothing.
pub mod Create
pub mod Lifecycle
pub mod Heap
pub mod Process
pub mod Requests
pub mod Calls
