-- ===== src/Lab2/Tests.antt =====
-- lab2/src: tests by evaluation, on a group of three hosts.
mod Scene
mod Groups
mod Leaders
mod Beats
mod Dialling
mod Launching
