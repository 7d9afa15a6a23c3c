-- ===== src/Mailbox.antt =====
-- lab1: a sender and a receiver that exchange lines of text through a mailbox, in shared memory or in a
-- message queue: lab1/sender.c, lab1/receiver.c and their headers.
pub mod Message
pub mod Texts
pub mod Steps
pub mod Memory
pub mod Queue
pub mod Delivery
pub mod Setup
pub mod Examples
