-- ===== src/Lib.antt =====
-- Verification of the Pico 2 W TF-M project: its secure partitions, their client interface, the
-- manager of non-secure client ids, the raw log, the RTOS and mailbox layers, the start of the
-- non-secure side and its test application, and of the program that encrypts the model on a host.
--
-- The program: a Raspberry Pi Pico 2 W runs Arm's Trusted Firmware-M. In the secure world there are
-- two partitions that the project adds: an echo service (partitions/echo_service/echo_service.c) and
-- an inference service (partitions/tinymaix_inference/tinymaix_inference.c), which derives a key
-- from the hardware unique key, decrypts a TinyMaix model that is compiled in as an encrypted package
-- (made by tools/tinymaix_model_encryptor.py), loads it into the TinyMaix engine and runs it on
-- images. Each partition is one loop: psa_wait, psa_get, a switch on the message's type, psa_reply.
-- In the non-secure world, interface/ has the functions with which an application calls them, and
-- lib/nsid_manager gives each thread a client id and a secure context; lib/log prints through a small
-- buffer. app_broker/main_ns.c starts the RTOS and one thread, which runs the tests of nspe/ over
-- interface/ and PSA Crypto; app_broker/os_wrapper_cmsis_rtos_v2.c wraps the RTOS for TF-M, and
-- lib/multi_core does so for the mailbox of a build with two cores.
--
-- Files:
-- Common (with Tests, Lists, Every, Texts, Words and Int below it): Boolean tests on numbers, lists as
--   byte buffers, properties of all items, characters of texts, little-endian words, signed C integers,
--   and the names that all other files share.
-- Psa: status codes, messages, and the calls that leave a partition. A partition's state ends in the
--   history of its calls; Env answers each call from that history, with nothing assumed of the
--   answers. So the SPM, PSA Crypto and the TinyMaix engine, which are not part of the sources that
--   are modelled, are parameters.
-- History: measures on histories, that both partitions' theorems use.
-- Echo.Service: echo_service_init, and echo_service_entry as echo_call (the PSA_IPC_CALL case),
--   dispatch (the switch), round (one turn of the loop) and serve (the first n turns).
-- Echo.Serving: what the echo partition does with a message, and for as long as it runs.
-- Inference.State: the globals as a record (World), and functions that may return a status early.
-- Inference.KeyDerivation: derive_key_from_huk.
-- Inference.Padding: the removal of PKCS#7 padding in decrypt_model, and the encryptor's _pkcs7_pad.
-- Inference.Decrypt: decrypt_model, cut where its comments cut it: check_package, init_crypto,
--   derive_encryption_key, import_encryption_key, run_cipher, accept_plaintext.
-- Inference.Output: parse_output.
-- Inference.Service: tinymaix_inference_init and tinymaix_inference_entry, one function per case of
--   the switch (load_encrypted_model, run_inference with infer and infer_custom, get_model_key).
-- Inference.Keeps, Stages, Outcomes, Unknowns: rules for properties of actions, and which calls each
--   stage makes.
-- Inference.Argmax, Unpadding, Release, Armed, Serving, Replies, Secrecy, ModelKey, GivenKey, Images,
--   Accepted: proofs.
-- Inference.RoundTrip: Package has create_encrypted_package of the encryptor; Stages has the stages of
--   decrypt_model when PSA Crypto succeeds.
-- Client.Api: tfm_echo_service (interface/src/tfm_echo_api.c) and the functions of
--   interface/src/tfm_tinymaix_inference_api.c, over psa_connect, psa_call and psa_close.
-- Client.Closing, EndToEnd, Inferring, Loading: proofs; the last three take a request through the
--   partition and back.
-- Nsid.Manager: lib/nsid_manager/tfm_nsid_manager.c, the table of tokens and NSIDs.
-- Nsid.Shim: lib/nsid_manager/tz_shim_layer.c with both of its build options (without
--   TFM_NS_MANAGE_NSID each function does nothing and returns 1); the NS client extension (tfm_nsce_*)
--   is TF-M's, and a parameter. A thread id is a uint8_t that is counted up only below
--   255, so that it does not wrap.
-- Nsid.Threads: app_broker/tfm_nsid_map_table.c, the NSIDs of named threads; a string is its characters
--   before the final 0.
-- Nsid.Slots, Refines, Contexts: proofs.
-- Log.Printer: lib/log/tfm_log_raw.c, its buffer of 32 characters and the output of strings and
--   numbers. fill_num_buff is the loop on the digits, on the 12 places of num_buff as its fuel: a
--   number of 32 bits has at most 10 decimal digits.
-- Log.Format: _tfm_log_vprintf and tfm_log_printf, character by character; the '%' that was read last
--   is a flag of format_loop.
-- Log.Digits, Text, Hex, Emits, Rendering, Texts, Logged: proofs; Digits has what the digits of a
--   number are, Rendering what the text of a format is.
-- Rtos.Cmsis: the calls of CMSIS-RTOS2, and the RTOS that answers them, a parameter. A handle is a
--   number, and 0 the null pointer; a status is the word that the caller sees.
-- Rtos.Threads, Rtos.Objects: app_broker/os_wrapper_cmsis_rtos_v2.c, its threads, flags and delays, and
--   its semaphores, mutexes and message queues.
-- Rtos.Requests, Rtos.Modules: proofs; Modules joins the wrapper with Nsid.Threads and Nsid.Shim.
-- Mailbox.Os: lib/multi_core/tfm_ns_mailbox_rtos_api.c.
-- Mailbox.Stats: lib/multi_core/tfm_ns_mailbox_test.c; the pointer to the queue is a number, and the
--   memory behind it a function.
-- Mailbox.Retry, Counts, Interleaving: proofs; the last has the two critical sections of an update as
--   steps of their own, between which anything can happen.
-- Boot.Main: app_broker/main_ns.c; main gives the events up to an endless loop or the kernel's start.
-- Boot.Order: proofs.
-- Suite.Echo, Crypto, Maix, Runner: nspe/echo_test_app.c, nspe/psa_crypto_test.c,
--   nspe/tinymaix_inference_test.c and nspe/test_runner.c. What is printed is a list of lines, the
--   latest first.
-- Suite.EchoVerdict, Keys, CryptoVerdict, MaixVerdict, Connections: proofs.
-- Encryptor.Text: what tools/tinymaix_model_encryptor.py uses of Python's re and str. The patterns are
--   such that the longest match of each group is the only one, so that a matcher takes it at once.
-- Encryptor.Header: parse_tinymaix_header, one matcher for each pattern.
-- Encryptor.Run: the files, random bytes, PBKDF2 and AES-CBC as a record (Host) with documented laws
--   (IsDocumented), and methods that may raise an exception: a file may be refused to open, and
--   os.chmod may be refused on one that was written. A run keeps what was done to files, the
--   latest first.
-- Encryptor.Keys: the keys, save_key_file and load_key_file. Encryptor.Package: encrypt_model and
--   create_encrypted_package (as create_package). Encryptor.Source: the texts of generate_c_header.
-- Encryptor.Workflow: encrypt_tinymaix_model, with write_all behind the choice of the key, and main.
-- Encryptor.Outcomes, Exits: rules for properties of methods.
-- Encryptor.Searching, Rows, Passing, Matching, RoundTrip, Parsing, KeyFiles, Chosen, Failing,
--   Overwriting, Written, Output, Deployed: proofs; the last joins the tool with Inference.RoundTrip.
-- Inference.Samples: a board with an encrypted model, for concrete runs.
-- Echo.Tests, Inference.Tests, Client.Tests, Nsid.Tests, Log.Tests, Rtos.Tests,
--   Mailbox.Tests, Boot.Tests, Suite.Tests, Encryptor.Tests: concrete runs.
--
-- Bounds: bytes and sizes are natural numbers. size_t has 32 bits on the target and no sum of sizes here
--   comes near 2^32; the difference encrypted_size - 28 is taken after the test that it is not negative.
--   The class that an inference writes is an int, whose bit pattern is written out. The buffer
--   lengths are those of the lists; a write past the end of a list changes nothing behind it, and the
--   sizes that are given to the callees are recorded in the calls.
-- Loops: while (1) is serve, for any number of turns; the loop over the padding is on the number of
--   bytes left, the loop over the scores on the list of the scores, the loop over a format on its
--   characters. The encryptor's searches are on the text, its rows on their number, and the digits of a
--   number n on n + 1 rounds, more than n has digits. The mailbox's while (1) is on fuel: a message
--   that the queue takes after k refusals needs k + 1 rounds, and any fuel above k is enough.
--
-- Not modelled: the partitions' log output, the built-in model data and the test image's bytes
-- (parameters or initial state), TinyMaix, CMSIS-RTOS2 and RTX and the other copied libraries, the
-- flashing tool uf2conv.py, the idle loop of app_broker/os_config_cmsis_rtx.c and the empty stubs of
-- app_broker/syscalls_stub.c. Of the encryptor: what it prints, argparse, which gives Args or ends the
-- program, characters outside ASCII, a write that fails after its file was opened, and Python's limit on
-- the digits of an int. int counters of the log are taken as unbounded.
pub mod Common
pub mod Psa
pub mod History
pub mod Echo
pub mod Inference
pub mod Client
pub mod Nsid
pub mod Log
pub mod Rtos
pub mod Mailbox
pub mod Boot
pub mod Suite
pub mod Encryptor
