-- ===== src/Ssh.antt =====
-- Package sshx: the command line for the remote shell.
pub mod Quote
