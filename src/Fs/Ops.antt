-- ===== src/Fs/Ops.antt =====
-- projeto-so-2022-23/fs/operations.c: the operations that clients call, the mutex included.
-- `pthread_mutex_lock` and `pthread_mutex_unlock` are not part of the program: what they return in
-- a call is the argument `pt`, and a result of 0 means that the mutex was taken or given back.
pub mod Mutex
pub mod Open
pub mod Transfer
pub mod Unlink
pub mod Init
