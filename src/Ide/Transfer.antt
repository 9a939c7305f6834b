-- ===== src/Ide/Transfer.antt =====
-- Sectors between the disk and memory: `ide_read` and `ide_write` of ch15/device/ide.c.
