-- ===== src/Lib.antt =====
-- FolderVault locks a folder into one encrypted container file and unlocks it again. This library
-- models its core, crates/vault-core/src, the command line crates/vault-cli/src and the desktop
-- application crates/vault-app/src.
--
-- Base holds the helpers: Boolean tests, lists, machine words and byte arrays. Vault is lib.rs: the
-- constants, the errors and the result type. Lockout is lockout.rs, the state machine of wrong
-- passwords, and Lockout.Policy its sequences. Primitives is the interface to the crates aes-gcm,
-- argon2, hmac, sha2 and x25519-dalek: a record of functions, and `IsLawful`, what the code relies on
-- (lengths, exact decryption, one shared secret for both sides). Random is the random generator, a
-- tape read in order. Crypto is crypto.rs. Header is `Header` of format.rs, byte by byte. Recovery is
-- recovery.rs: the base-32 recovery code and the sealing of a data key to the master key. Paths is
-- `safe_join` of format.rs with the components of a Windows path. Walk is walk.rs, the scan of a
-- folder. Container is what format.rs does with a container file: frames in Stream, the prologue
-- `open_and_authorize` in Authorize, its results in Guard, Flags, Attempts and Foreign; the manifest and
-- the chunks in Payload and Whole, with Chunks, Extract, Restore, Whether and Restored about them; `inspect` and
-- `verify_structure` in Verify. Journal is journal.rs, on a disk that maps paths to files and folders.
-- Secrets is secrets.rs, and Secrets.Kept its files read back. Cli is crates/vault-cli/src/main.rs over
-- an interface of the core's operations. Tests runs the definitions on toy primitives and concrete data.
--
-- Folder is the whole operations of format.rs. A `World` holds the disk, the records of the journal and
-- every moment passed, so that a crash is any of these moments; `Os` says which calls the system refuses
-- and what stands there while a file is half written. The recycle bin is a removal from the disk, and
-- the random tape is an argument. Names chooses the names, Wipe is `wipe_tree`, Lock is `lock_folder`,
-- Unlock is `unlock_container` and `verify_and_delete`, and both write the records of journal.rs. About
-- them: Triple and Runs are partial and total triples of actions, Calls and Records the triples of the
-- calls and of the journal; LockSteps, LockCrash and LockSafe follow a lock through its moments,
-- UnlockSteps, UnlockWhole, UnlockCrash and UnlockSafe an unlock; Success, Succeeds and Locks follow a
-- lock to which nothing is refused, Restores and Unlocks such an unlock, and Returns puts the two
-- together; Delete is about `verify_and_delete` and Wiped about the overwriting.
--
-- App is the desktop application: State is the state of the dialog of ui.rs, and Dialog its messages
-- from the window and from the worker; Orderly and Submit are about their sequences. Shell is shell.rs
-- on a registry that maps keys to values, with Registered about it; Main is main.rs, with Setup about
-- it.
--
-- The prologue ties the parts together: it reads the header (Header), clamps untrusted lockout fields,
-- asks the lockout (Lockout), derives and unwraps the key (Crypto) or opens the recovery wrap
-- (Recovery), and writes the header back into the file. The folder operations call it, the payload
-- (Container.Whole) and the journal; the journal's replay works on the disk that a crash of them left.
--
-- Numbers are natural numbers; words of Rust are reduced modulo 2 ^ 32 and 2 ^ 64 where the source
-- computes with them, as in the release build. Text is a list of code points, and a file is its bytes
-- and its read-only flag. A file that was opened reads and writes without errors other than its end.
-- The loops are recursions on lists and trees. Four have fuel: the loop of `encode_base32` that drains
-- the accumulator, by the number of bits held, since each round takes five of them; the loops over the
-- chunks of a file, by its size, since each round takes a byte or more; the loop of `verify_structure`,
-- by the length of the stream, since each round reads a byte; and the loop that overwrites a file with
-- zeros, by its size, since each round writes a byte or more. The system's answer to a call is the same
-- each time the call is made in one operation.
--
-- Not modelled: the clearing of keys in memory; progress reports and printing; the creation of the
-- journal's directory; a header that is half written when it is written
-- back, the refusal of opening a container, and errors of reading and writing one that is open; errors
-- of creating and writing the single files of an extraction, and names that are one file to the file
-- system; a recycle bin, or the removal behind it, that stops half way; names that are no text, which
-- the source changes into one; the drawing, layout, focus and clipboard of the dialog; the shell
-- extension; the inside of the calls of Windows, which are parameters.
pub mod App
pub mod Base
pub mod Secrets
pub mod Vault
pub mod Lockout
pub mod Primitives
pub mod Random
pub mod Crypto
pub mod Folder
pub mod Header
pub mod Recovery
pub mod Paths
pub mod Walk
pub mod Container
pub mod Journal
pub mod Cli
mod Tests
